-- ===== src/Detector/Tests.antt =====
-- Runs of the detector with the small network, and with a message that names a slot only.
use posix_bsp_perf.Prelude.{
  ℕ, ◌+◌, ◌≤◌, ◌≡◌, refl, Option, none, some, [], ◌∷◌, ◌++◌, ◌-◌, length, replicate, min, arith,
  take, length-replicate,
}
use posix_bsp_perf.Buffers.{Buffer}
use posix_bsp_perf.Images.{ImageView, make_host_image_view}
use posix_bsp_perf.SharedMem.{
  SharedMemPublisher, SharedMemSubscriber, read_bytes, receive_shared_mem_data,
}
use posix_bsp_perf.Camera.Frames.{
  ImageBuffer, CameraConfig, CameraSensorMsg, need_pixel_converter, fill_camera_sensor_msg,
  get_decoded_frame,
}
use posix_bsp_perf.Dnn.Samples.{naturals, counting, box, plugin, params, nv12, view, detector}
use posix_bsp_perf.Detector.{
  FrameQueues, frame_desc, take_frame, receive_into, room_for_inference, on_message, give_back,
}
use posix_bsp_perf.Detector.Work.{default_box, results_msg, Worker}
use posix_bsp_perf.Detector.Threads.{fills, Threads, start, room, choose, Reach, here, next}
use posix_bsp_perf.Detector.Bounds.{in_hand, frames_alive, Reach-frames_alive}
use posix_bsp_perf.Detector.Copies.{IsSized}
use posix_bsp_perf.Detector.Sized.{Reach-receive_into}
use posix_bsp_perf.Detector.Boxes.{results_msg-take}
use posix_bsp_perf.Detector.Overrun.{nothing_yet, on_message_overruns}
use posix_bsp_perf.Detector.Path.{Passes, consumer_round-Passes}

abbrev zeros : ℕ → Buffer
zeros n = replicate n 0

abbrev message : ℕ → CameraSensorMsg
message slot = record {
  publisher_id = 99 ∷ [];
  pixel_format = nv12;
  width = 2;
  height = 1;
  data_size = 3;
  slot_index = slot;
}

abbrev slot_only : CameraSensorMsg → Buffer
slot_only m = m.slot_index ∷ []

abbrev unpack : Buffer → Option CameraSensorMsg
unpack [] = none
unpack (slot ∷ rest) = some (message slot)

abbrev subscriber : SharedMemSubscriber
subscriber = record { slots = 2; single_buffer_size = 3 }

abbrev memory : Buffer
memory = 1 ∷ 2 ∷ 3 ∷ 4 ∷ 5 ∷ 6 ∷ []

-- The receiver has made room and chosen a frame for a message.
abbrev fresh : ImageView
fresh = make_host_image_view (some (zeros 3)) (frame_desc (message 1)) 2

abbrev choosing : Threads
choosing = record start { receiver = fills (message 1) fresh }

choosing-Reach : Reach zeros subscriber (λ m. m.data_size ≡ 3) choosing
unfolding room_for_inference take_frame
choosing-Reach = next (next here (room refl refl)) (choose (message 1) refl refl refl)

Reach-frames_alive_example :
    (length choosing.queues.free_frames ≤ 50)
    × (length choosing.queues.inference_frames ≤ 50)
    × (length choosing.queues.inference_frames + in_hand choosing.receiver ≤ 50)
    × (frames_alive choosing ≤ 101)
Reach-frames_alive_example =
    Reach-frames_alive zeros subscriber (λ m. m.data_size ≡ 3) choosing choosing-Reach

got_slot : receive_shared_mem_data memory 3 1 subscriber ≡ some (some (4 ∷ 5 ∷ 6 ∷ []))
unfolding receive_shared_mem_data read_bytes
got_slot = refl

Reach-receive_into_example :
    (filled : ImageView) × (receive_into memory subscriber (message 1) fresh ≡ some filled)
    × IsSized 3 filled
Reach-receive_into_example =
    Reach-receive_into zeros (λ n. length-replicate n 0) subscriber 3 choosing (message 1) fresh
      memory (some (4 ∷ 5 ∷ 6 ∷ [])) choosing-Reach refl got_slot

results_msg-take_example :
    ((results_msg naturals (99 ∷ []) (replicate 65 (box 1)) (view (4 ∷ [])) 1).output_boxes
      ≡ take 64 (replicate 65 (box 1)) ++ replicate (64 - 65) (default_box naturals))
    × ((results_msg naturals (99 ∷ []) (replicate 65 (box 1)) (view (4 ∷ [])) 1).valid_box_count
        ≡ min 65 64)
results_msg-take_example =
    results_msg-take naturals (99 ∷ []) (replicate 65 (box 1)) (view (4 ∷ [])) 1

-- A frame of one byte, and then one of three.
abbrev unpack_sizes : Buffer → Option CameraSensorMsg
unpack_sizes [] = some (record (message 0) { data_size = 1 })
unpack_sizes (slot ∷ rest) = some (message slot)

got_byte : receive_shared_mem_data memory 1 0 subscriber ≡ some (some (1 ∷ []))
unfolding receive_shared_mem_data read_bytes
got_byte = refl

on_message_overruns_example :
    (q : FrameQueues) × (frame : ImageView) × (on_message zeros unpack_sizes memory subscriber []
        nothing_yet
      ≡ some q)
    × (q.inference_frames ≡ frame ∷ [])
    × (on_message zeros unpack_sizes memory subscriber
          (1 ∷ [])
          (give_back frame (record q { inference_frames = [] }))
        ≡ none)
on_message_overruns_example =
    on_message_overruns zeros unpack_sizes memory memory subscriber [] (1 ∷ [])
      (record (message 0) { data_size = 1 }) (message 1) (1 ∷ []) (4 ∷ 5 ∷ 6 ∷ [])
      (λ n. length-replicate n 0) refl got_byte refl refl got_slot (omega arith)

abbrev config : CameraConfig
config = record { sensor_name = 99 ∷ []; out_pixel_format = nv12; xres = 2; yres = 1 }

abbrev image : ImageBuffer
image = record { format = nv12; bytes = 7 ∷ 8 ∷ 9 ∷ [] }

abbrev ring : SharedMemPublisher
ring = record {
  slots = 2;
  single_buffer_size = 3;
  current_slot_index = 1;
  memory = replicate 6 0;
  published = [];
}

abbrev worker : Worker naturals (λ m. []) (λ n. n) counting (some plugin)
worker = record { name = 100 ∷ []; params = params; dnn = detector; output_port = ring }

abbrev idle : FrameQueues
idle = record { free_frames = []; inference_frames = [] }

consumer_round-Passes_example :
    Passes config
      (λ f. none)
      slot_only
      unpack
      zeros
      naturals
      (λ m. [])
      (λ n. n)
      counting
      (some plugin)
      (image ∷ [])
      image
      ring
      idle
      worker
unfolding fill_camera_sensor_msg get_decoded_frame need_pixel_converter
consumer_round-Passes_example =
    consumer_round-Passes config (λ f. none) slot_only unpack zeros naturals (λ m. []) (λ n. n)
      counting (some plugin) (image ∷ []) image ring idle worker (λ n. length-replicate n 0)
      (record { mapped = refl; turning = omega arith }) refl (omega arith) refl refl tt tt
      (record { mapped = refl; turning = omega arith }) (omega arith)
