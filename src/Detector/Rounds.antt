-- ===== src/Detector/Rounds.antt =====
-- objDetector.cpp: what a round of either loop does with a frame.
use posix_bsp_perf.Prelude.{
  drop_all, ℕ, ◌<◌, ◌≡◌, refl, ap, subst, ◌∙◌, inl, inr, Option, some, [], ◌∷◌, ◌++◌, append-nil,
  ◌==◌, if◌then◌else◌, if_elim, length, All, arith,
}
use posix_bsp_perf.Buffers.{Buffer}
use posix_bsp_perf.Images.{ImageView, make_host_image_view}
use posix_bsp_perf.SharedMem.{SharedMemSubscriber, receive_shared_mem_data}
use posix_bsp_perf.Camera.Frames.{CameraSensorMsg}
use posix_bsp_perf.Detector.{
  FrameQueues, frame_desc, take_frame, receive_into, room_for_inference, push_inference, trim_free,
  on_message,
}
use posix_bsp_perf.Detector.Rooms.{List-cases, make_room_idle}
use posix_bsp_perf.Detector.Copies.{IsSized, receive_into-bytes, take_frame-IsSized}

same_or : (n : ℕ) → (if n == 0 then n else n) ≡ n
same_or n = if_elim (λ r. r ≡ n) (n == 0) (λ e. refl) (λ e. refl)

module _ (stale : ℕ → Buffer) (stale_long : (n : ℕ) → length (stale n) ≡ n) where
  take_frame-frame_desc :
      (m : CameraSensorMsg) (q : FrameQueues)
      → All (λ f. f.desc ≡ frame_desc m) q.free_frames
      → (take_frame stale m q).0.desc ≡ frame_desc m
  unfolding take_frame make_host_image_view frame_desc
  take_frame-frame_desc m q all = elim (List-cases q.free_frames) [
    | inl e ↦ rw (e, same_or m.width, same_or m.height) refl
    | inr (f, fs, e) ↦
        let (one, rest) = subst (All (λ g. g.desc ≡ frame_desc m)) e all in rw (e) one
  ]

  module _ (unpack : Buffer → Option CameraSensorMsg) where
    -- A message that unpacks, whose frame the shared memory still holds, meets free frames of its
    -- description and size and fewer than 50 waiting frames. Then the round puts the frame, with its bytes
    -- and with the description that the message gives, behind the waiting ones.
    pub on_message_delivers :
        (memory : Buffer) (s : SharedMemSubscriber) (msg : Buffer) (m : CameraSensorMsg)
        (q : FrameQueues) (bytes : Buffer)
        → unpack msg ≡ some m
        → All (IsSized m.data_size) q.free_frames
        → All (λ f. f.desc ≡ frame_desc m) q.free_frames
        → length q.inference_frames < 50
        → receive_shared_mem_data memory m.data_size m.slot_index s ≡ some (some bytes)
        → length bytes ≡ m.data_size
        → (q' : FrameQueues) × (frame : ImageView) × (on_message stale unpack memory s msg q
            ≡ some q')
          × (q'.inference_frames ≡ q.inference_frames ++ frame ∷ [])
          × (frame.pixels ≡ some bytes)
          × (frame.desc ≡ frame_desc m)
    unfolding on_message room_for_inference push_inference trim_free
    on_message_delivers memory s msg m q bytes known sized described few got long =
        let r = room_for_inference q in
        let f = (take_frame stale m r).0 in
        let q1 = (take_frame stale m r).1 in
        let (is, rest, same) = take_frame-IsSized stale stale_long m r sized in
        let filled : receive_into memory s m f ≡ some (record f { pixels = some bytes }) =
          receive_into-bytes memory s m f is.array bytes is.there (omega (arith, long, is.long)) got
          ∙ ap (λ t. some (record f { pixels = some (bytes ++ t) }))
              (drop_all is.array (length bytes) (omega (arith, long, is.long)))
          ∙ ap (λ b. some (record f { pixels = some b })) (append-nil bytes) in
        let waiting : q1.inference_frames ≡ q.inference_frames =
          same ∙ make_room_idle 50 q.inference_frames few in
        (
          trim_free (push_inference (record f { pixels = some bytes }) q1),
          record f { pixels = some bytes },
          rw (known, on_message) (rw (filled) refl),
          ap (λ w. w ++ record f { pixels = some bytes } ∷ []) waiting,
          refl,
          take_frame-frame_desc m r described,
        )
