-- ===== src/Viewers.antt =====
-- apps/data_recorder/ui/model: RawCamera.cpp and ObjectsDetection.cpp, which show the frames of a camera
-- and those of the object detector. Every signal carries the pointer to `data_buffer`, which a slot in
-- another thread reads later, so what it sees is what the buffer holds by then. `unpack` is msgpack; an exception of it is not caught and ends the program,
-- as a fault does: both are `none`. `draw` stands for OpenCV.
pub mod Streams
mod Tests
use posix_bsp_perf.Prelude.{
  ℕ, not, ◌||◌, ltb, ◌==◌, Option, none, some, List, [], ◌∷◌, ◌++◌, if◌then◌else◌, length, take,
}
use posix_bsp_perf.Buffers.{Buffer}
use posix_bsp_perf.Zmq.{Socket, receive_data}
use posix_bsp_perf.SharedMem.{SharedMemSubscriber, write_bytes, receive_shared_mem_data}
use posix_bsp_perf.Camera.Frames.{CameraSensorMsg}
use posix_bsp_perf.TrafficCam.{same_label}
use posix_bsp_perf.Yolo.{Floats}
use posix_bsp_perf.Yolo.Run.{ObjDetectOutputBox}
use posix_bsp_perf.Detector.Work.{ObjDetectMsg}

abbrev pub rgb888 : List ℕ
rgb888 = 82 ∷ 71 ∷ 66 ∷ 56 ∷ 56 ∷ 56 ∷ []

abbrev pub rgba8888 : List ℕ
rgba8888 = 82 ∷ 71 ∷ 66 ∷ 65 ∷ 56 ∷ 56 ∷ 56 ∷ 56 ∷ []

-- What `rawCameraFrameUpdated` and `objectsDetectionFrameUpdated` are given beside the pointer to
-- `data_buffer`, which is the same for all.
pub record Emitted : Type 0 where
  pub width : ℕ
  pub height : ℕ
  pub pixel_format : List ℕ

-- The local variables of a loop, and the signals so far. A null pointer is `none`.
pub record Viewer : Type 0 where
  pub data_buffer : Option Buffer
  pub emitted : List Emitted

-- `receiveSharedMemData` into the buffer, which is made for the first message. Its result is not looked
-- at. `none` is a fault.
unfoldable pub receive_frame :
    (ℕ → Buffer) → Buffer → SharedMemSubscriber → CameraSensorMsg → Viewer → Option Buffer
unfolding receive_shared_mem_data write_bytes
receive_frame stale memory s m v =
    let buffer : Buffer = elim v.data_buffer [ none ↦ stale m.data_size | some b ↦ b ] in
    elim (receive_shared_mem_data memory m.data_size m.slot_index s) [
      | none ↦ none
      | some none ↦ some buffer
      | some (some bytes) ↦ write_bytes buffer 0 bytes
    ]

abbrev pub emit_frame : CameraSensorMsg → Viewer → Viewer
emit_frame m v = record v {
  emitted =
      v.emitted
      ++ record { width = m.width; height = m.height; pixel_format = m.pixel_format } ∷ [];
}

module _ (stale : ℕ → Buffer) (unpack : Buffer → Option CameraSensorMsg) where
  -- A round of `CameraConsumerLoop` on a message.
  unfoldable pub on_camera_message : Buffer → SharedMemSubscriber → Buffer → Viewer → Option Viewer
  unfolding receive_frame
  on_camera_message memory s msg v = elim (unpack msg) [
    | none ↦ none
    | some m ↦ elim (receive_frame stale memory s m v) [
      | none ↦ none
      | some buffer ↦
          let filled = record v { data_buffer = some buffer } in
          if same_label m.pixel_format rgb888 || same_label m.pixel_format rgba8888
          then some (emit_frame m filled)
          else some filled
    ]
  ]

  -- And the whole round. `sizeof_msg` is `sizeof(CameraSensorMsg)`.
  unfoldable pub camera_round :
      ℕ
      → Buffer
      → SharedMemSubscriber
      → Buffer
      → Socket
      → Viewer
      → Option (Buffer × Socket × Viewer)
  unfolding receive_data on_camera_message
  camera_round sizeof_msg memory s msg_buffer socket v =
      elim (receive_data msg_buffer sizeof_msg socket) [
        | none ↦ none
        | some r ↦
            if r.size == 0
            then some (r.buffer, r.socket, v)
            else elim (on_camera_message memory s (take r.size r.buffer) v) [
              | none ↦ none
              | some v' ↦ some (r.buffer, r.socket, v')
            ]
      ]

module _ (fl : Floats) (stale : ℕ → Buffer) (unpack : Buffer → Option (ObjDetectMsg fl)) where
  module _ (draw : List ℕ → List (ObjDetectOutputBox fl) → CameraSensorMsg → Buffer → Buffer) where
    -- A round of `ObjectDetectionConsumerLoop` on a message. The boxes are drawn into the buffer, one call
    -- of `draw` for all that count; a count beyond the array is read out of bounds.
    unfoldable pub on_results_message :
        Buffer → SharedMemSubscriber → Buffer → Viewer → Option Viewer
    unfolding receive_frame
    on_results_message memory s msg v = elim (unpack msg) [
      | none ↦ none
      | some r ↦
          let m = r.original_frame in
          elim (receive_frame stale memory s m v) [
            | none ↦ none
            | some buffer ↦
                let drawn = draw m.pixel_format (take r.valid_box_count r.output_boxes) m buffer in
                if not (same_label m.pixel_format rgb888 || same_label m.pixel_format rgba8888)
                then some (record v { data_buffer = some buffer })
                else if ltb (length r.output_boxes) r.valid_box_count
                then none
                else some (emit_frame m (record v { data_buffer = some drawn }))
          ]
    ]
