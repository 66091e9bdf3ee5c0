-- ===== src/Dnn/Fresh.antt =====
-- dnnObjDetector.cpp and runDnnInference: what a frame's boxes do not depend on.
use posix_bsp_perf.Prelude.{
  ℕ, ◌≡◌, refl, ◌||◌, Option, none, some, List, ◌==◌, Bool-cases, Option-cases, inl, inr,
}
use posix_bsp_perf.Images.{ImageView}
use posix_bsp_perf.Yolo.{Floats}
use posix_bsp_perf.Yolo.Decode.{ObjDetectParams}
use posix_bsp_perf.Yolo.Run.{ObjDetectOutputBox}
use posix_bsp_perf.Dnn.{
  DnnEngine, DnnPlugin, DnnObjDetector, push_input, pop_output, run_obj_detect, infer,
  post_and_release,
}
use posix_bsp_perf.Dnn.Inference.{Inferred, with_scales, boxes_of, infer_scaled, run_dnn_inference}

module _ (fl : Floats) (of_size : ℕ → fl.Float) (e : DnnEngine) where
  -- The boxes, the parameters and the engine after a call, if it returns.
  abbrev pub seen :
      Option (Inferred fl of_size e)
      → Option (List (ObjDetectOutputBox fl) × ObjDetectParams fl × e.State)
  seen none = none
  seen (some r) = some (r.boxes, r.params, r.detector.engine)

  -- The detector with what it holds of another frame.
  abbrev pub with_leftovers :
      Option ImageView → List (ObjDetectOutputBox fl) → DnnObjDetector fl e → DnnObjDetector fl e
  with_leftovers view boxes d = record d { data_input = view; data_output_vector = boxes }

  infer_scaled_fresh :
      (p : DnnPlugin fl e) (params : ObjDetectParams fl) (view : ImageView)
      (d : DnnObjDetector fl e) (boxes : List (ObjDetectOutputBox fl))
      → seen (infer_scaled fl of_size e (some p) params (with_leftovers (some view) boxes d))
        ≡ seen (infer_scaled fl of_size e (some p) params (record d { data_input = some view }))
  unfolding infer_scaled run_obj_detect infer boxes_of post_and_release pop_output
  infer_scaled_fresh p params view d boxes =
      let tiny = fl.le params.scale_width fl.nought || fl.le params.scale_height fl.nought in
      elim (Bool-cases tiny) [
        | inl t ↦ rw (t) refl
        | inr f ↦ elim (Option-cases (p.pre_process params view e.no_tensor).1) [
          | inl thrown ↦ rw (f, thrown) refl
          | inr (tensor, made) ↦ rw (f, made) refl
        ]
      ]

  -- With a plugin, the boxes that runDnnInference gives for a frame, the parameters and the engine behind
  -- it are the same whatever input and whatever boxes the detector holds from frames before.
  pub run_dnn_inference_fresh :
      (p : DnnPlugin fl e) (view : ImageView) (params : ObjDetectParams fl)
      (d : DnnObjDetector fl e) (old : Option ImageView) (boxes : List (ObjDetectOutputBox fl))
      → seen (run_dnn_inference fl of_size e (some p) view params (with_leftovers old boxes d))
        ≡ seen (run_dnn_inference fl of_size e (some p) view params d)
  unfolding run_dnn_inference push_input
  run_dnn_inference_fresh p view params d old boxes =
      let flat = view.desc.width == 0 || view.desc.height == 0 in
      elim (Option-cases view.pixels) [
        | inl null ↦ rw (null) refl
        | inr (bytes, there) ↦ elim (Bool-cases (view.desc.data_size == 0)) [
          | inl t ↦ rw (there, t) refl
          | inr f ↦ elim (Bool-cases flat) [
            | inl t ↦ rw (there, f, t) refl
            | inr g ↦
                let v = record view { pixels = some bytes } in
                rw (there, f, g)
                  (infer_scaled_fresh p (with_scales fl of_size e v params) v d boxes)
          ]
        ]
      ]
