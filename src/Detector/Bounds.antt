-- ===== src/Detector/Bounds.antt =====
-- The two threads of Detector/Threads.antt: how many frames there are, and how large they are.
use posix_bsp_perf.Prelude.{
  ℕ, ◌+◌, ◌≤◌, ◌≡◌, inl, inr, refl, ap, Option, none, some, [], ◌∷◌, ltb, if_elim, length,
  length-append, arith,
}
use posix_bsp_perf.Buffers.{Buffer}
use posix_bsp_perf.Images.{ImageView}
use posix_bsp_perf.SharedMem.{SharedMemSubscriber}
use posix_bsp_perf.Camera.Frames.{CameraSensorMsg}
use posix_bsp_perf.Detector.{
  FrameQueues, free_frames_queue_size, inference_frames_queue_size, take_frame, room_for_inference,
  push_inference, trim_free, give_back,
}
use posix_bsp_perf.Detector.Rooms.{List-cases, length-make_room}
use posix_bsp_perf.Detector.Threads.{
  Receiver, waits, has_room, fills, pushes, trims, Threads, Step, room, fail, choose, fill, push,
  trim, pop, back, Reach, here, next,
}

-- The frames that the receiver has to itself, and whether it has made room.
abbrev pub in_hand : Receiver → ℕ
in_hand (fills m frame) = 1
in_hand (pushes frame) = 1
in_hand _ = 0

abbrev pending : Receiver → ℕ
pending waits = 0
pending trims = 0
pending _ = 1

abbrev pub at_work : Option ImageView → ℕ
at_work none = 0
at_work (some frame) = 1

-- How many frames there are.
abbrev pub frames_alive : Threads → ℕ
frames_alive t =
    length t.queues.free_frames
    + length t.queues.inference_frames
    + in_hand t.receiver
    + at_work t.worker

record IsBounded (t : Threads) : Type 0 where
  few_free : length t.queues.free_frames ≤ free_frames_queue_size
  few_waiting : length t.queues.inference_frames + pending t.receiver ≤ inference_frames_queue_size

in_hand-le-pending : (r : Receiver) → in_hand r ≤ pending r
in_hand-le-pending waits = omega arith
in_hand-le-pending has_room = omega arith
in_hand-le-pending (fills m frame) = omega arith
in_hand-le-pending (pushes frame) = omega arith
in_hand-le-pending trims = omega arith

at_work-le : (o : Option ImageView) → at_work o ≤ 1
at_work-le none = omega arith
at_work-le (some frame) = omega arith

give_back-waiting :
    (frame : ImageView) (q : FrameQueues)
    → (give_back frame q).inference_frames ≡ q.inference_frames
unfolding give_back
give_back-waiting frame q =
    if_elim (λ (r : FrameQueues). r.inference_frames ≡ q.inference_frames)
      (ltb (length q.free_frames) 50) (λ e. refl) (λ e. refl)

give_back-short :
    (frame : ImageView) (q : FrameQueues)
    → length q.free_frames ≤ 50
    → length (give_back frame q).free_frames ≤ 50
unfolding give_back
give_back-short frame q h =
    let long = length-append q.free_frames (frame ∷ []) in
    if_elim (λ (r : FrameQueues). length r.free_frames ≤ 50) (ltb (length q.free_frames) 50)
      (λ e. ground (arith, e, long)) (λ e. h)

module _ (stale : ℕ → Buffer) (s : SharedMemSubscriber) (Sent : CameraSensorMsg → Type 0) where
  take_frame-waiting :
      (m : CameraSensorMsg) (q : FrameQueues)
      → ((take_frame stale m q).1.inference_frames ≡ q.inference_frames)
        × (length (take_frame stale m q).1.free_frames ≤ length q.free_frames)
  unfolding take_frame
  take_frame-waiting m q = elim (List-cases q.free_frames) [
    | inl e ↦ rw (e) (refl, omega arith)
    | inr (f, fs, e) ↦ rw (e) (refl, omega arith)
  ]

  Step-IsBounded : (t u : Threads) → Step stale s Sent t u → IsBounded t → IsBounded u
  unfolding room_for_inference push_inference trim_free
  Step-IsBounded t u (room at e) b = rw (e) (record {
    few_free = b.few_free;
    few_waiting = omega (arith, length-make_room 50 t.queues.inference_frames (omega arith));
  })
  Step-IsBounded t u (fail at e) b =
      let w = ap pending at in
      rw (e) (record { few_free = b.few_free; few_waiting = omega (arith, b.few_waiting, w) })
  Step-IsBounded t u (choose m sent at e) b =
      let w : pending t.receiver ≡ 1 = ap pending at in
      let (same, fewer) = take_frame-waiting m t.queues in
      rw (e) (record {
        few_free = omega (arith, b.few_free, fewer);
        few_waiting = rw (same) (omega (arith, b.few_waiting, w));
      })
  Step-IsBounded t u (fill m memory frame filled at got e) b =
      let w : pending t.receiver ≡ 1 = ap pending at in
      rw (e) (record { few_free = b.few_free; few_waiting = omega (arith, b.few_waiting, w) })
  Step-IsBounded t u (push frame at e) b =
      let w : pending t.receiver ≡ 1 = ap pending at in
      let long = length-append t.queues.inference_frames (frame ∷ []) in
      rw (e) (record { few_free = b.few_free; few_waiting = omega (arith, b.few_waiting, w, long) })
  Step-IsBounded t u (trim at e) b =
      let w : pending t.receiver ≡ 0 = ap pending at in
      rw (e) (record {
        few_free = omega (arith, length-make_room 50 t.queues.free_frames (omega arith));
        few_waiting = omega (arith, b.few_waiting, w);
      })
  Step-IsBounded t u (pop frame frames idle has e) b =
      let long = ap length has in
      rw (e) (record { few_free = b.few_free; few_waiting = omega (arith, b.few_waiting, long) })
  Step-IsBounded t u (back frame has e) b = rw (e) (record {
    few_free = give_back-short frame t.queues b.few_free;
    few_waiting = rw (give_back-waiting frame t.queues) b.few_waiting;
  })

  Reach-IsBounded : (t : Threads) → Reach stale s Sent t → IsBounded t
  Reach-IsBounded t here = record { few_free = omega arith; few_waiting = omega arith }
  Reach-IsBounded t (next {t = r} before st) = Step-IsBounded r t st (Reach-IsBounded r before)

  -- Whatever messages come and however the two threads take turns: each of the queues holds at most 50
  -- frames, the receiver meets a queue for inference with room when it pushes a frame, and there are
  -- at most 101 frames in all.
  pub Reach-frames_alive :
      (t : Threads)
      → Reach stale s Sent t
      → (length t.queues.free_frames ≤ 50)
        × (length t.queues.inference_frames ≤ 50)
        × (length t.queues.inference_frames + in_hand t.receiver ≤ 50)
        × (frames_alive t ≤ 101)
  Reach-frames_alive t r =
      let b = Reach-IsBounded t r in
      let hand = in_hand-le-pending t.receiver in
      let work = at_work-le t.worker in
      (
        b.few_free,
        omega (arith, b.few_waiting),
        omega (arith, b.few_waiting, hand),
        omega (arith, b.few_free, b.few_waiting, hand, work),
      )
