-- ===== src/Detector/Path.antt =====
-- CameraClient.cpp and objDetector.cpp together: a frame on its way from the camera's queue through two
-- rings of shared memory to whoever subscribes to the detector.
use posix_bsp_perf.Prelude.{
  ℕ, ◌≤◌, ◌<◌, ◌≡◌, refl, arith, sym, ap, subst, ◌∙◌, Option, some, List, [], ◌∷◌, ◌++◌, length,
  All,
}
use posix_bsp_perf.Buffers.{Buffer}
use posix_bsp_perf.Images.{ImageView}
use posix_bsp_perf.SharedMem.{SharedMemPublisher}
use posix_bsp_perf.SharedMem.Slots.{mirror}
use posix_bsp_perf.SharedMem.Ring.{IsRing}
use posix_bsp_perf.Camera.Frames.{
  ImageBuffer, CameraConfig, CameraSensorMsg, fill_camera_sensor_msg, get_decoded_frame,
  consumer_round,
}
use posix_bsp_perf.Camera.Latest.{announced, consumer_round-receive_shared_mem_data}
use posix_bsp_perf.Yolo.{Floats}
use posix_bsp_perf.Dnn.{DnnEngine, DnnPlugin}
use posix_bsp_perf.Detector.{FrameQueues, frame_desc, on_message}
use posix_bsp_perf.Detector.Copies.{IsSized}
use posix_bsp_perf.Detector.Rounds.{on_message_delivers}
use posix_bsp_perf.Detector.Work.{ObjDetectMsg, Worker, inference_round}
use posix_bsp_perf.Detector.Publish.{RoundOn, inference_round-RoundOn}

module _ (c : CameraConfig) (convert : ImageBuffer → Option ImageBuffer)
    (pack_camera : CameraSensorMsg → Buffer) (unpack : Buffer → Option CameraSensorMsg)
    (stale : ℕ → Buffer) (fl : Floats) (pack : ObjDetectMsg fl → Buffer) (of_size : ℕ → fl.Float)
    (e : DnnEngine) (plugin : Option (DnnPlugin fl e)) where
  -- The way of the image `img`: the camera's round, the detector's two, and the frame between them.
  pub record Passes (queue : List ImageBuffer) (img : ImageBuffer) (p : SharedMemPublisher)
      (q : FrameQueues) (w : Worker fl pack of_size e plugin) : Type 0 where
    pub camera : SharedMemPublisher
    pub sent :
        consumer_round c convert pack_camera queue p
        ≡ some ((get_decoded_frame c convert queue).1, camera)
    pub topic : camera.published ≡ p.published ++ pack_camera (announced c img p) ∷ []
    pub queues : FrameQueues
    pub received :
        on_message stale unpack camera.memory (mirror p) (pack_camera (announced c img p)) q
        ≡ some queues
    pub frame : ImageView
    pub pixels : frame.pixels ≡ some img.bytes
    pub desc : frame.desc ≡ frame_desc (announced c img p)
    pub round :
        RoundOn fl pack of_size e plugin frame img.bytes
          (record queues { inference_frames = [] })
          w
          (inference_round fl pack of_size e plugin queues w)

  -- An image that getDecodedFrame gives goes into a mapped ring of slots as large by a round of the camera,
  -- which publishes one message, and this unpacks to what was packed. From that message a detector without waiting frames, whose free
  -- frames have the description and the size that the message names, takes the image up in a round of runLoop,
  -- and its next round of inferenceLoop publishes it, into a ring of slots as large, with the boxes that
  -- the network gives for it. A new array has the size that is asked for.
  pub consumer_round-Passes :
      (queue : List ImageBuffer) (img : ImageBuffer) (p : SharedMemPublisher) (q : FrameQueues)
      (w : Worker fl pack of_size e plugin)
      → ((n : ℕ) → length (stale n) ≡ n)
      → IsRing p
      → (get_decoded_frame c convert queue).0 ≡ some img
      → length img.bytes ≤ p.single_buffer_size
      → unpack (pack_camera (announced c img p)) ≡ some (announced c img p)
      → q.inference_frames ≡ []
      → All (IsSized (length img.bytes)) q.free_frames
      → All (λ f. f.desc ≡ frame_desc (announced c img p)) q.free_frames
      → IsRing w.output_port
      → length img.bytes ≤ w.output_port.single_buffer_size
      → Passes queue img p q w
  unfolding fill_camera_sensor_msg frame_desc
  consumer_round-Passes queue img p q w whole ring taken_one fits known idle sized described out
        room =
      let m = announced c img p in
      let (camera, sent, topic, here) =
        consumer_round-receive_shared_mem_data c convert pack_camera queue img p ring taken_one
          fits in
      let (queues, frame, received, waits, pixels, desc) =
        on_message_delivers stale whole unpack camera.memory (mirror p) (pack_camera m) m q
          img.bytes known sized described (subst (λ l. length l < 50) (sym idle) (omega arith)) here
          refl in
      let front : queues.inference_frames ≡ frame ∷ [] = waits ∙ ap (λ l. l ++ frame ∷ []) idle in
      let long : length img.bytes ≡ frame.desc.data_size = ap (λ d. d.data_size) (sym desc) in
      record {
        camera = camera;
        sent = sent;
        topic = topic;
        queues = queues;
        received = received;
        frame = frame;
        pixels = pixels;
        desc = desc;
        round =
            inference_round-RoundOn fl pack of_size e plugin queues w frame [] img.bytes front
              pixels long out room;
      }
