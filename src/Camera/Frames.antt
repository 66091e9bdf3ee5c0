-- ===== src/Camera/Frames.antt =====
-- The frames between VideoDecHelper.cpp and CameraClient::consumerLoop, and from there to the shared
-- memory. A frame is its format and its bytes, `desc.dataSize` of them. `convert` is the conversion of
-- pixels by the 2D engine, with `none` for a null pointer, and `pack` is msgpack.
use posix_bsp_perf.Prelude.{
  ℕ, Bool, not, Option, none, some, List, [], ◌∷◌, ◌++◌, if◌then◌else◌, length,
}
use posix_bsp_perf.Buffers.{Buffer}
use posix_bsp_perf.SharedMem.{SharedMemPublisher, get_free_slot_index, publish_data}
use posix_bsp_perf.TrafficCam.{same_label}
use posix_bsp_perf.Camera.{trim}

abbrev pub reserved_frame_num : ℕ
reserved_frame_num = 30

pub record ImageBuffer : Type 0 where
  pub format : List ℕ
  pub bytes : Buffer

-- `decoderCallback` on the queue of decoded frames.
unfoldable pub decoder_callback : ImageBuffer → List ImageBuffer → List ImageBuffer
unfolding trim
decoder_callback frame queue = trim reserved_frame_num (queue ++ frame ∷ [])

-- `needPixelConverter`, with the texts equal byte by byte.
unfoldable pub need_pixel_converter : List ℕ → List ℕ → Bool
need_pixel_converter out_pixel_format pixel_format = not (same_label out_pixel_format pixel_format)

pub record CameraSensorMsg : Type 0 where
  pub publisher_id : List ℕ
  pub pixel_format : List ℕ
  pub width : ℕ
  pub height : ℕ
  pub data_size : ℕ
  pub slot_index : ℕ

-- What CameraClient is configured with.
pub record CameraConfig : Type 0 where
  pub sensor_name : List ℕ
  pub out_pixel_format : List ℕ
  pub xres : ℕ
  pub yres : ℕ

unfoldable pub fill_camera_sensor_msg : CameraConfig → ℕ → ℕ → CameraSensorMsg
fill_camera_sensor_msg c data_size slot_index = record {
  publisher_id = c.sensor_name;
  pixel_format = c.out_pixel_format;
  width = c.xres;
  height = c.yres;
  data_size = data_size;
  slot_index = slot_index;
}

module _ (c : CameraConfig) (pack : CameraSensorMsg → Buffer) where
  -- The body of `consumerLoop` on a frame. `none` is a fault.
  unfoldable pub publish_image : ImageBuffer → SharedMemPublisher → Option SharedMemPublisher
  unfolding get_free_slot_index publish_data fill_camera_sensor_msg
  publish_image frame p = elim (get_free_slot_index p) [
    | none ↦ none
    | some (slot, p1) ↦
        elim (publish_data (pack (fill_camera_sensor_msg c (length frame.bytes) slot)) frame.bytes
          slot p1) [ none ↦ none | some (ok, p2) ↦ some p2 ]
  ]

module _ (c : CameraConfig) (convert : ImageBuffer → Option ImageBuffer) where
  -- The frame or a null pointer, and the queue behind it.
  unfoldable pub get_decoded_frame : List ImageBuffer → Option ImageBuffer × List ImageBuffer
  unfolding need_pixel_converter
  get_decoded_frame [] = (none, [])
  get_decoded_frame (frame ∷ queue) = (
    if need_pixel_converter c.out_pixel_format frame.format then convert frame else some frame,
    queue,
  )

  module _ (pack : CameraSensorMsg → Buffer) where
    -- A round of `consumerLoop`.
    unfoldable pub consumer_round :
        List ImageBuffer → SharedMemPublisher → Option (List ImageBuffer × SharedMemPublisher)
    unfolding get_decoded_frame publish_image
    consumer_round queue p =
        let (taken, left) = get_decoded_frame queue in
        elim taken [
          | none ↦ some (left, p)
          | some frame ↦ elim (publish_image c pack frame p) [
            | none ↦ none
            | some p' ↦ some (left, p')
          ]
        ]
