-- ===== src/Detector/Work.antt =====
-- objDetector.cpp: inferenceLoop and publishObjDetectResults. `pack` is msgpack.
use posix_bsp_perf.Prelude.{
  ℕ, ◌+◌, ◌%◌, ◌^◌, Bool, false, Option, none, some, List, [], ◌∷◌, ltb, leb, if◌then◌else◌, length,
  take, set, replicate,
}
use posix_bsp_perf.Buffers.{Buffer}
use posix_bsp_perf.Images.{ImageView}
use posix_bsp_perf.SharedMem.{SharedMemPublisher, get_free_slot_index, publish_data}
use posix_bsp_perf.Camera.Frames.{CameraSensorMsg}
use posix_bsp_perf.Yolo.{Floats, int32}
use posix_bsp_perf.Yolo.Decode.{ObjDetectParams}
use posix_bsp_perf.Yolo.Run.{ObjDetectOutputBox}
use posix_bsp_perf.Dnn.{DnnEngine, DnnPlugin, DnnObjDetector}
use posix_bsp_perf.Dnn.Inference.{run_dnn_inference}
use posix_bsp_perf.Detector.{FrameQueues, give_back}

abbrev pub max_boxes : ℕ
max_boxes = 64

module _ (fl : Floats) where
  pub record ObjDetectMsg : Type 0 where
    pub publisher_id : List ℕ
    pub original_frame : CameraSensorMsg
    pub output_boxes : List (ObjDetectOutputBox fl)
    pub valid_box_count : ℕ

  abbrev pub default_box : ObjDetectOutputBox fl
  default_box = record {
    bbox = record { left = int32 0; top = int32 0; right = int32 0; bottom = int32 0 };
    score = fl.nought;
    label = [];
  }

  -- The loop of `publishObjDetectResults` from the box `i` on.
  unfoldable pub fill_boxes : List (ObjDetectOutputBox fl) → ℕ → ObjDetectMsg → ObjDetectMsg
  fill_boxes [] i m = m
  fill_boxes (b ∷ bs) i m =
      let rest = fill_boxes bs (i + 1) (record m {
        output_boxes = set m.output_boxes i b;
        valid_box_count = (m.valid_box_count + 1) % 2 ^ 32;
      }) in
      if ltb i max_boxes then rest else m

  -- The message, with the slot that the frame has got.
  unfoldable pub results_msg : List ℕ → List (ObjDetectOutputBox fl) → ImageView → ℕ → ObjDetectMsg
  unfolding fill_boxes
  results_msg name boxes frame slot_index = fill_boxes boxes 0 (record {
    publisher_id = name;
    original_frame = record {
      publisher_id = name;
      pixel_format = frame.desc.format;
      width = frame.desc.width;
      height = frame.desc.height;
      data_size = frame.desc.data_size;
      slot_index = slot_index;
    };
    output_boxes = replicate max_boxes default_box;
    valid_box_count = 0;
  })

  -- `publishData` of `n` bytes from an array. An array that is shorter is read past its end, unless the
  -- slot is too small and the call returns before. The result is not looked at.
  unfoldable pub publish_array :
      Buffer → Buffer → ℕ → ℕ → SharedMemPublisher → Option (Bool × SharedMemPublisher)
  unfolding publish_data
  publish_array msg array n slot_index p =
      if leb n (length array)
      then publish_data msg (take n array) slot_index p
      else if ltb p.single_buffer_size n
      then some (false, p)
      else none

  module _ (pack : ObjDetectMsg → Buffer) where
    unfoldable pub publish_obj_detect_results :
        List ℕ
        → List (ObjDetectOutputBox fl)
        → ImageView
        → Buffer
        → SharedMemPublisher
        → Option SharedMemPublisher
    unfolding get_free_slot_index results_msg publish_array
    publish_obj_detect_results name boxes frame array p = elim (get_free_slot_index p) [
      | none ↦ none
      | some (slot, p1) ↦
          elim (publish_array (pack (results_msg name boxes frame slot)) array frame.desc.data_size
            slot p1) [ none ↦ none | some (ok, p2) ↦ some p2 ]
    ]

    module _ (of_size : ℕ → fl.Float) (e : DnnEngine) (plugin : Option (DnnPlugin fl e)) where
      -- What the thread of `inferenceLoop` works on beside the queues.
      pub record Worker : Type 0 where
        pub name : List ℕ
        pub params : ObjDetectParams fl
        pub dnn : DnnObjDetector fl e
        pub output_port : SharedMemPublisher

      -- The frame, which has an array, goes through the network and out.
      unfoldable pub infer_and_publish : ImageView → Buffer → Worker → Option Worker
      unfolding run_dnn_inference publish_obj_detect_results
      infer_and_publish frame array w =
          elim (run_dnn_inference fl of_size e plugin frame w.params w.dnn) [
            | none ↦ none
            | some r ↦ elim (publish_obj_detect_results w.name r.boxes frame array w.output_port) [
              | none ↦ none
              | some port ↦
                  some (record w { params = r.params; dnn = r.detector; output_port = port })
            ]
          ]

      -- A round of `inferenceLoop`. `none` is a fault.
      unfoldable pub inference_round : FrameQueues → Worker → Option (FrameQueues × Worker)
      unfolding infer_and_publish give_back
      inference_round q w = elim q.inference_frames [
        | [] ↦ some (q, w)
        | frame ∷ frames ↦
            let left = record q { inference_frames = frames } in
            elim frame.pixels [
              | none ↦ some (left, w)
              | some array ↦ elim (infer_and_publish frame array w) [
                | none ↦ none
                | some w' ↦ some (give_back frame left, w')
              ]
            ]
      ]
