-- ===== src/Detector.antt =====
-- apps/data_recorder/obj_detector/objDetector.cpp: the frames between runLoop, which receives them from a
-- camera's shared memory, and inferenceLoop, which runs the network on them and publishes them with its
-- boxes. A frame belongs to one queue or to one thread, so it is held by value: its description, and the
-- bytes of the array that it owns. `stale n` is what a new array of `n` bytes happens to hold, and `unpack`
-- is msgpack, with `none` for an exception. Widths and heights are not negative.
pub mod Work
pub mod Rooms
pub mod Threads
pub mod Bounds
pub mod Copies
pub mod Sized
pub mod Rounds
pub mod Publish
pub mod Boxes
pub mod Path
pub mod Overrun
mod Tests
use posix_bsp_perf.Prelude.{
  ℕ, suc, Option, none, some, List, [], ◌∷◌, ◌++◌, ltb, leb, ◌==◌, if◌then◌else◌, length, take,
}
use posix_bsp_perf.Buffers.{Buffer}
use posix_bsp_perf.Images.{ImageDesc, ImageView, make_host_image_view}
use posix_bsp_perf.Zmq.{Socket, receive_data}
use posix_bsp_perf.SharedMem.{SharedMemSubscriber, write_bytes, receive_shared_mem_data}
use posix_bsp_perf.Camera.Frames.{CameraSensorMsg}

pub record FrameQueues : Type 0 where
  pub free_frames : List ImageView
  pub inference_frames : List ImageView

abbrev pub free_frames_queue_size : ℕ
free_frames_queue_size = 50

abbrev pub inference_frames_queue_size : ℕ
inference_frames_queue_size = 50

-- `while (queue.size() >= limit)` the oldest goes.
unfoldable pub make_room {ℓ} : {A : Type ℓ} → ℕ → List A → List A
make_room limit [] = []
make_room limit (f ∷ fs) =
    let rest = make_room limit fs in if leb limit (length (f ∷ fs)) then rest else f ∷ fs

unfoldable pub frame_desc : CameraSensorMsg → ImageDesc
frame_desc m = record {
  width = m.width;
  height = m.height;
  width_stride = m.width;
  height_stride = m.height;
  format = m.pixel_format;
  data_size = m.data_size;
}

-- A free frame as it is, or a new one made for the message.
unfoldable pub take_frame : (ℕ → Buffer) → CameraSensorMsg → FrameQueues → ImageView × FrameQueues
unfolding make_host_image_view frame_desc
take_frame stale m q = elim q.free_frames [
  | [] ↦ (make_host_image_view (some (stale m.data_size)) (frame_desc m) m.width, q)
  | f ∷ fs ↦ (f, record q { free_frames = fs })
]

-- `receiveSharedMemData` into the frame's array. Its result is not looked at. `none` is a fault.
unfoldable pub receive_into :
    Buffer → SharedMemSubscriber → CameraSensorMsg → ImageView → Option ImageView
unfolding receive_shared_mem_data write_bytes
receive_into memory s m frame = elim (receive_shared_mem_data memory m.data_size m.slot_index s) [
  | none ↦ none
  | some none ↦ some frame
  | some (some bytes) ↦ elim frame.pixels [
    | none ↦ none
    | some array ↦ elim (write_bytes array 0 bytes) [
      | none ↦ none
      | some array' ↦ some (record frame { pixels = some array' })
    ]
  ]
]

unfoldable pub room_for_inference : FrameQueues → FrameQueues
unfolding make_room
room_for_inference q = record q {
  inference_frames = make_room inference_frames_queue_size q.inference_frames;
}

unfoldable pub push_inference : ImageView → FrameQueues → FrameQueues
push_inference frame q = record q { inference_frames = q.inference_frames ++ frame ∷ [] }

unfoldable pub trim_free : FrameQueues → FrameQueues
unfolding make_room
trim_free q = record q { free_frames = make_room free_frames_queue_size q.free_frames }

-- The end of a round of `inferenceLoop`.
unfoldable pub give_back : ImageView → FrameQueues → FrameQueues
give_back frame q =
    if ltb (length q.free_frames) free_frames_queue_size
    then record q { free_frames = q.free_frames ++ frame ∷ [] }
    else q

module _ (stale : ℕ → Buffer) (unpack : Buffer → Option CameraSensorMsg) where
  -- A round of `runLoop` on a message, of which only `receiveMsg` is left out.
  unfoldable pub on_message :
      Buffer → SharedMemSubscriber → Buffer → FrameQueues → Option FrameQueues
  unfolding room_for_inference take_frame receive_into push_inference trim_free
  on_message memory s msg q = elim (unpack msg) [
    | none ↦ some (room_for_inference q)
    | some m ↦
        let (frame, q1) = take_frame stale m (room_for_inference q) in
        elim (receive_into memory s m frame) [
          | none ↦ none
          | some filled ↦ some (trim_free (push_inference filled q1))
        ]
  ]

  abbrev pub max_msg_size : ℕ
  max_msg_size = 4096

  -- And the whole round, with what the array for messages holds.
  unfoldable pub receive_round :
      Buffer
      → SharedMemSubscriber
      → Buffer
      → Socket
      → FrameQueues
      → Option (Buffer × Socket × FrameQueues)
  unfolding receive_data on_message
  receive_round memory s msg_buffer socket q = elim (receive_data msg_buffer max_msg_size socket) [
    | none ↦ none
    | some r ↦
        if r.size == 0
        then some (r.buffer, r.socket, q)
        else elim (on_message memory s (take r.size r.buffer) q) [
          | none ↦ none
          | some q' ↦ some (r.buffer, r.socket, q')
        ]
  ]
