-- ===== src/Detector/Publish.antt =====
-- objDetector.cpp: what a round of inferenceLoop publishes.
use posix_bsp_perf.Prelude.{
  ℕ, ◌≤◌, ◌<◌, ◌≡◌, refl, ap, subst, ◌∙◌, Option, some, List, [], ◌∷◌, ◌++◌, leb, if_elim, length,
  take_all, arith,
}
use posix_bsp_perf.Buffers.{Buffer}
use posix_bsp_perf.Images.{ImageView}
use posix_bsp_perf.SharedMem.{SharedMemPublisher, publish_data, receive_shared_mem_data}
use posix_bsp_perf.SharedMem.Slots.{mirror}
use posix_bsp_perf.SharedMem.Ring.{Frame, IsRing, publish_frame, publish_frame_lem, taken}
use posix_bsp_perf.Yolo.{Floats}
use posix_bsp_perf.Yolo.Run.{ObjDetectOutputBox}
use posix_bsp_perf.Dnn.{DnnEngine, DnnPlugin}
use posix_bsp_perf.Dnn.Inference.{Inferred, run_dnn_inference}
use posix_bsp_perf.Dnn.Cases.{run_dnn_inference-IsSome}
use posix_bsp_perf.Detector.{FrameQueues, give_back}
use posix_bsp_perf.Detector.Work.{
  ObjDetectMsg, results_msg, publish_array, publish_obj_detect_results, Worker, infer_and_publish,
  inference_round,
}

module _ (fl : Floats) (pack : ObjDetectMsg fl → Buffer) where
  publish_array-whole :
      (msg array : Buffer) (n slot : ℕ) (p : SharedMemPublisher)
      → length array ≡ n
      → publish_array fl msg array n slot p ≡ publish_data msg array slot p
  unfolding publish_array
  publish_array-whole msg array n slot p long =
      if_elim (λ r. r ≡ publish_data msg array slot p) (leb n (length array))
        (λ e. ap (λ a. publish_data msg a slot p) (take_all array n (omega (arith, long))))
        (λ e. absurd (ground (arith, e, long)))

  publish_obj_detect_results-publish_frame :
      (name : List ℕ) (boxes : List (ObjDetectOutputBox fl)) (frame : ImageView) (array : Buffer)
      (p : SharedMemPublisher)
      → 0 < p.slots
      → length array ≡ frame.desc.data_size
      → publish_obj_detect_results fl pack name boxes frame array p
        ≡ publish_frame
            (record {
              msg = pack (results_msg fl name boxes frame p.current_slot_index);
              bytes = array;
            })
            p
  unfolding publish_obj_detect_results publish_frame
  publish_obj_detect_results-publish_frame name boxes frame array p h long =
      rw (taken p h, publish_obj_detect_results, publish_frame)
        (rw (publish_array-whole _ array frame.desc.data_size _ _ long) refl)

  module _ (of_size : ℕ → fl.Float) (e : DnnEngine) (plugin : Option (DnnPlugin fl e)) where
    -- What a round on a frame leaves: the boxes are those of a run of the network on it, one message goes
    -- out with them, and a subscriber finds the frame in the slot that the message names.
    pub record RoundOn (frame : ImageView) (array : Buffer) (left : FrameQueues)
        (w : Worker fl pack of_size e plugin)
        (end : Option (FrameQueues × Worker fl pack of_size e plugin)) : Type 0 where
      pub inferred : Inferred fl of_size e
      pub ran : run_dnn_inference fl of_size e plugin frame w.params w.dnn ≡ some inferred
      pub after : Worker fl pack of_size e plugin
      pub ends : end ≡ some (give_back frame left, after)
      pub topic :
          after.output_port.published
          ≡ w.output_port.published
            ++ pack (results_msg fl w.name inferred.boxes frame w.output_port.current_slot_index)
              ∷ []
      pub here :
          receive_shared_mem_data after.output_port.memory frame.desc.data_size
            w.output_port.current_slot_index
            (mirror w.output_port)
          ≡ some (some array)

    -- A round of inferenceLoop on a queue with a frame that is as large as it says, and on an output port
    -- that is a mapped ring of slots at least as large.
    pub inference_round-RoundOn :
        (q : FrameQueues) (w : Worker fl pack of_size e plugin) (frame : ImageView)
        (frames : List ImageView) (array : Buffer)
        → q.inference_frames ≡ frame ∷ frames
        → frame.pixels ≡ some array
        → length array ≡ frame.desc.data_size
        → IsRing w.output_port
        → length array ≤ w.output_port.single_buffer_size
        → RoundOn frame array
            (record q { inference_frames = frames })
            w
            (inference_round fl pack of_size e plugin q w)
    unfolding inference_round infer_and_publish
    inference_round-RoundOn q w frame frames array has there long ring fits =
        let p = w.output_port in
        let (r, ran) = run_dnn_inference-IsSome fl of_size e plugin frame w.params w.dnn in
        let f : Frame = record {
          msg = pack (results_msg fl w.name r.boxes frame p.current_slot_index);
          bytes = array;
        } in
        let (p', st) = publish_frame_lem f p ring fits in
        let published =
          publish_obj_detect_results-publish_frame w.name r.boxes frame array p
            (omega (arith, ring.turning)) long
          ∙ st.ran in
        let worked : infer_and_publish fl pack of_size e plugin frame array w
            ≡ some (record w { params = r.params; dnn = r.detector; output_port = p' }) =
          rw (ran, infer_and_publish) (rw (published) refl) in
        record {
          inferred = r;
          ran = ran;
          after = record w { params = r.params; dnn = r.detector; output_port = p' };
          ends = rw (has, inference_round) (simp (there, worked));
          topic = st.topic;
          here =
              subst
                (λ n.
                  receive_shared_mem_data p'.memory n p.current_slot_index (mirror p)
                  ≡ some (some array))
                long st.here;
        }
