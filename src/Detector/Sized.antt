-- ===== src/Detector/Sized.antt =====
-- The two threads of Detector/Threads.antt, when all messages name one size: the arrays of the frames.
use posix_bsp_perf.Prelude.{
  ℕ, ◌≡◌, inl, inr, refl, sym, subst, Option-cases, Option, none, some, [], ◌∷◌, ltb, if_elim,
  length, All, All-append, OnSome,
}
use posix_bsp_perf.Buffers.{Buffer}
use posix_bsp_perf.Images.{ImageView}
use posix_bsp_perf.SharedMem.{SharedMemSubscriber, receive_shared_mem_data}
use posix_bsp_perf.Camera.Frames.{CameraSensorMsg}
use posix_bsp_perf.Detector.{
  FrameQueues, take_frame, receive_into, room_for_inference, push_inference, trim_free, give_back,
}
use posix_bsp_perf.Detector.Rooms.{make_room-All}
use posix_bsp_perf.Detector.Copies.{IsSized, receive_into-IsSized, take_frame-IsSized}
use posix_bsp_perf.Detector.Threads.{
  Receiver, fills, pushes, Threads, Step, room, fail, choose, fill, push, trim, pop, back, Reach,
  here, next,
}

abbrev pub HandIsSized : ℕ → Receiver → Type 0
HandIsSized n (fills m frame) = IsSized n frame × (m.data_size ≡ n)
HandIsSized n (pushes frame) = IsSized n frame
HandIsSized n _ = Unit

record AllSized (n : ℕ) (t : Threads) : Type 0 where
  free : All (IsSized n) t.queues.free_frames
  waiting : All (IsSized n) t.queues.inference_frames
  hand : HandIsSized n t.receiver
  work : OnSome (IsSized n) t.worker

-- A filled frame keeps the size that the message names.
filled-IsSized :
    (memory : Buffer) (s : SharedMemSubscriber) (m : CameraSensorMsg) (frame filled : ImageView)
    → IsSized m.data_size frame
    → receive_into memory s m frame ≡ some filled
    → IsSized m.data_size filled
unfolding receive_into
filled-IsSized memory s m frame filled is ran =
    elim (Option-cases (receive_shared_mem_data memory m.data_size m.slot_index s)) [
      | inl fault ↦
          let stops : receive_into memory s m frame ≡ none = rw (fault, receive_into) refl in
          absurd cc
      | inr (got, e) ↦
          let (g, ran', ok) = receive_into-IsSized memory s m frame got is e in
          let same : g ≡ filled = cc in subst (IsSized m.data_size) same ok
    ]

give_back-All :
    (n : ℕ) (frame : ImageView) (q : FrameQueues)
    → IsSized n frame
    → All (IsSized n) q.free_frames
    → All (IsSized n) (give_back frame q).free_frames
      × ((give_back frame q).inference_frames ≡ q.inference_frames)
unfolding give_back
give_back-All n frame q is all =
    if_elim
      (λ (r : FrameQueues).
        All (IsSized n) r.free_frames × (r.inference_frames ≡ q.inference_frames))
      (ltb (length q.free_frames) 50)
      (λ e. (All-append (IsSized n) q.free_frames (frame ∷ []) all (is, tt), refl))
      (λ e. (all, refl))

module _ (stale : ℕ → Buffer) (stale_long : (n : ℕ) → length (stale n) ≡ n)
    (s : SharedMemSubscriber) (n : ℕ) where
  Step-AllSized :
      (t u : Threads) → Step stale s (λ m. m.data_size ≡ n) t u → AllSized n t → AllSized n u
  unfolding room_for_inference push_inference trim_free
  Step-AllSized t u (room at e) w = rw (e) (record {
    free = w.free;
    waiting = make_room-All (IsSized n) 50 t.queues.inference_frames w.waiting;
    hand = tt;
    work = w.work;
  })
  Step-AllSized t u (fail at e) w =
      rw (e) (record { free = w.free; waiting = w.waiting; hand = tt; work = w.work })
  Step-AllSized t u (choose m sent at e) w =
      let all = subst (λ k. All (IsSized k) t.queues.free_frames) (sym sent) w.free in
      let (one, rest, same) = take_frame-IsSized stale stale_long m t.queues all in
      rw (e) (record {
        free = subst (λ k. All (IsSized k) (take_frame stale m t.queues).1.free_frames) sent rest;
        waiting = rw (same) w.waiting;
        hand = (subst (λ k. IsSized k (take_frame stale m t.queues).0) sent one, sent);
        work = w.work;
      })
  Step-AllSized t u (fill m memory frame filled at ran e) w =
      let (is, sent) = subst (HandIsSized n) at w.hand in
      let is' = subst (λ k. IsSized k frame) (sym sent) is in
      let ok = filled-IsSized memory s m frame filled is' ran in
      rw (e) (record {
        free = w.free;
        waiting = w.waiting;
        hand = subst (λ k. IsSized k filled) sent ok;
        work = w.work;
      })
  Step-AllSized t u (push frame at e) w = rw (e) (record {
    free = w.free;
    waiting =
        All-append (IsSized n) t.queues.inference_frames (frame ∷ []) w.waiting
          (subst (HandIsSized n) at w.hand, tt);
    hand = tt;
    work = w.work;
  })
  Step-AllSized t u (trim at e) w = rw (e) (record {
    free = make_room-All (IsSized n) 50 t.queues.free_frames w.free;
    waiting = w.waiting;
    hand = tt;
    work = w.work;
  })
  Step-AllSized t u (pop frame frames idle has e) w =
      let (one, rest) = subst (All (IsSized n)) has w.waiting in
      rw (e) (record { free = w.free; waiting = rest; hand = w.hand; work = one })
  Step-AllSized t u (back frame has e) w =
      let is : IsSized n frame = subst (OnSome (IsSized n)) has w.work in
      let (free, same) = give_back-All n frame t.queues is w.free in
      rw (e) (record { free = free; waiting = rw (same) w.waiting; hand = w.hand; work = tt })

  Reach-AllSized : (t : Threads) → Reach stale s (λ m. m.data_size ≡ n) t → AllSized n t
  Reach-AllSized t here = record { free = tt; waiting = tt; hand = tt; work = tt }
  Reach-AllSized t (next {t = r} before st) = Step-AllSized r t st (Reach-AllSized r before)

  -- While all messages name one size, and a new array has the size that is asked for: however the threads
  -- take turns, the copy of what the shared memory holds for a message stays inside the frame that
  -- was chosen for the message, and leaves a frame whose array has that size.
  pub Reach-receive_into :
      (t : Threads) (m : CameraSensorMsg) (frame : ImageView) (memory : Buffer)
      (got : Option Buffer)
      → Reach stale s (λ m. m.data_size ≡ n) t
      → t.receiver ≡ fills m frame
      → receive_shared_mem_data memory m.data_size m.slot_index s ≡ some got
      → (filled : ImageView) × (receive_into memory s m frame ≡ some filled) × IsSized n filled
  Reach-receive_into t m frame memory got r at e =
      let (is, sent) = subst (HandIsSized n) at (Reach-AllSized t r).hand in
      let is' = subst (λ k. IsSized k frame) (sym sent) is in
      let (filled, ran, ok) = receive_into-IsSized memory s m frame got is' e in
      (filled, ran, subst (λ k. IsSized k filled) sent ok)

  -- The same of the worker: the frame that it publishes holds as many bytes as it says.
  pub Reach-work-IsSized :
      (t : Threads) (frame : ImageView)
      → Reach stale s (λ m. m.data_size ≡ n) t
      → t.worker ≡ some frame
      → IsSized n frame
  Reach-work-IsSized t frame r has = subst (OnSome (IsSized n)) has (Reach-AllSized t r).work
