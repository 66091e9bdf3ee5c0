-- ===== src/Dnn/Inference.antt =====
-- apps/data_recorder/obj_detector/objDetector.cpp: runDnnInference, from a frame to boxes. Whatever is
-- thrown below is caught here. `of_size` is the conversion of `size_t` and `uint32_t` to float.
use posix_bsp_perf.Prelude.{ℕ, ◌||◌, Option, none, some, List, [], ◌==◌, if◌then◌else◌}
use posix_bsp_perf.Images.{ImageView}
use posix_bsp_perf.Yolo.{Floats, int32}
use posix_bsp_perf.Yolo.Decode.{ObjDetectParams}
use posix_bsp_perf.Yolo.Run.{ObjDetectOutputBox}
use posix_bsp_perf.Dnn.{
  DnnEngine, DnnPlugin, DnnObjDetector, push_input, pop_output, Ran, run_obj_detect,
}

module _ (fl : Floats) (of_size : ℕ → fl.Float) (e : DnnEngine) where
  pub record Inferred : Type 0 where
    pub boxes : List (ObjDetectOutputBox fl)
    pub params : ObjDetectParams fl
    pub detector : DnnObjDetector fl e

  unfoldable pub with_scales : ImageView → ObjDetectParams fl → ObjDetectParams fl
  with_scales view params = record params {
    scale_width = fl.div (of_size params.model_input_width) (of_size view.desc.width);
    scale_height = fl.div (of_size params.model_input_height) (of_size view.desc.height);
  }

  -- From `runObjDetect` on.
  unfoldable pub boxes_of : Ran fl e → Inferred
  unfolding pop_output
  boxes_of r = record {
    boxes = elim r.result [
      | none ↦ []
      | some ret ↦ if ret == int32 0 then pop_output fl e r.detector else []
    ];
    params = r.params;
    detector = r.detector;
  }

  -- With the input pushed and the size of the frame not zero.
  unfoldable pub infer_scaled :
      Option (DnnPlugin fl e) → ObjDetectParams fl → DnnObjDetector fl e → Option Inferred
  unfolding run_obj_detect boxes_of
  infer_scaled plugin params d =
      if fl.le params.scale_width fl.nought || fl.le params.scale_height fl.nought
      then some (record { boxes = []; params = params; detector = d })
      else elim (run_obj_detect fl e plugin params d) [ none ↦ none | some r ↦ some (boxes_of r) ]

  unfoldable pub run_dnn_inference :
      Option (DnnPlugin fl e)
      → ImageView
      → ObjDetectParams fl
      → DnnObjDetector fl e
      → Option Inferred
  unfolding push_input with_scales infer_scaled
  run_dnn_inference plugin view params d = elim view.pixels [
    | none ↦ some (record { boxes = []; params = params; detector = d })
    | some bytes ↦
        let pushed = push_input fl e view d in
        if view.desc.data_size == 0
        then some (record { boxes = []; params = params; detector = d })
        else if view.desc.width == 0 || view.desc.height == 0
        then some (record { boxes = []; params = params; detector = pushed })
        else infer_scaled plugin (with_scales view params) pushed
  ]
