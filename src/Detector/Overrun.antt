-- ===== src/Detector/Overrun.antt =====
-- objDetector.cpp: a frame that is used again for a larger message.
use posix_bsp_perf.Prelude.{
  ℕ, ◌+◌, ◌<◌, ◌≡◌, refl, ap, ◌∙◌, Option, none, some, List, [], ◌∷◌, ◌++◌, append-nil, drop_all,
  leb, if_elim, length, arith,
}
use posix_bsp_perf.Buffers.{Buffer}
use posix_bsp_perf.Images.{ImageView, make_host_image_view}
use posix_bsp_perf.SharedMem.{SharedMemSubscriber, write_bytes, receive_shared_mem_data}
use posix_bsp_perf.Camera.Frames.{CameraSensorMsg}
use posix_bsp_perf.Detector.{
  FrameQueues, room_for_inference, take_frame, receive_into, on_message, push_inference, trim_free,
  make_room, give_back,
}
use posix_bsp_perf.Detector.Copies.{receive_into-bytes}

pub write_bytes_past :
    (array bytes : Buffer) → length array < length bytes → write_bytes array 0 bytes ≡ none
unfolding write_bytes
write_bytes_past array bytes h =
    if_elim (λ r. r ≡ none) (leb (0 + length bytes) (length array))
      (λ e. absurd (ground (arith, e))) (λ e. refl)

-- No frames at all.
abbrev pub nothing_yet : FrameQueues
nothing_yet = record { free_frames = []; inference_frames = [] }

module _ (stale : ℕ → Buffer) (unpack : Buffer → Option CameraSensorMsg) where
  -- When the first free frame has a smaller array than what the shared memory holds for a message, the
  -- round of runLoop on that message writes past the end of the array.
  on_message_small :
      (memory : Buffer) (s : SharedMemSubscriber) (msg : Buffer) (m : CameraSensorMsg)
      (q : FrameQueues) (frame : ImageView) (frames : List ImageView) (array bytes : Buffer)
      → unpack msg ≡ some m
      → q.free_frames ≡ frame ∷ frames
      → frame.pixels ≡ some array
      → receive_shared_mem_data memory m.data_size m.slot_index s ≡ some (some bytes)
      → length array < length bytes
      → on_message stale unpack memory s msg q ≡ none
  unfolding on_message room_for_inference take_frame receive_into
  on_message_small memory s msg m q frame frames array bytes known free there got small =
      let chosen : (take_frame stale m (room_for_inference q)).0 ≡ frame =
        rw (free, take_frame) refl in
      let past : receive_into memory s m frame ≡ none =
        rw (got, receive_into) (rw (there) (rw (write_bytes_past array bytes small) refl)) in
      let past' : receive_into memory s m (take_frame stale m (room_for_inference q)).0 ≡ none =
        ap (receive_into memory s m) chosen ∙ past in
      rw (known, on_message) (rw (past') refl)

  -- The frame that a new detector makes for a message.
  abbrev made : CameraSensorMsg → ImageView
  made m = (take_frame stale m nothing_yet).0

  -- A detector that starts without frames gets a message and then one whose frame in the shared memory is
  -- larger. It takes up the first; when its inference has given the frame back before the second comes,
  -- the round on the second writes past the end of the array, which was made for the first. A new array
  -- has the size that is asked for.
  pub on_message_overruns :
      (memory memory' : Buffer) (s : SharedMemSubscriber) (msg msg' : Buffer)
      (m m' : CameraSensorMsg) (bytes bytes' : Buffer)
      → ((n : ℕ) → length (stale n) ≡ n)
      → unpack msg ≡ some m
      → receive_shared_mem_data memory m.data_size m.slot_index s ≡ some (some bytes)
      → length bytes ≡ m.data_size
      → unpack msg' ≡ some m'
      → receive_shared_mem_data memory' m'.data_size m'.slot_index s ≡ some (some bytes')
      → length bytes < length bytes'
      → (q : FrameQueues) × (frame : ImageView) × (on_message stale unpack memory s msg nothing_yet
          ≡ some q)
        × (q.inference_frames ≡ frame ∷ [])
        × (on_message stale unpack memory' s msg'
              (give_back frame (record q { inference_frames = [] }))
            ≡ none)
  unfolding on_message room_for_inference take_frame make_host_image_view push_inference trim_free
      make_room give_back
  on_message_overruns memory memory' s msg msg' m m' bytes bytes' whole known got long known' got'
        larger =
      let array = stale m.data_size in
      let fits = whole m.data_size in
      let frame = record (made m) { pixels = some bytes } in
      let filled : receive_into memory s m (made m) ≡ some frame =
        receive_into-bytes memory s m (made m) array bytes refl (omega (arith, fits, long)) got
        ∙ ap (λ t. some (record (made m) { pixels = some (bytes ++ t) }))
            (drop_all array (length bytes) (omega (arith, fits, long)))
        ∙ ap (λ b. some (record (made m) { pixels = some b })) (append-nil bytes) in
      let q : FrameQueues = record { free_frames = []; inference_frames = frame ∷ [] } in
      (
        q,
        frame,
        rw (known, on_message) (rw (filled) refl),
        refl,
        on_message_small memory' s msg' m' (give_back frame (record q { inference_frames = [] }))
            frame [] bytes bytes' known' refl refl got' larger,
      )
