-- ===== src/Dnn/Cases.antt =====
-- runDnnInference: its ways out, and that it takes one of them.
use posix_bsp_perf.Prelude.{
  ℕ, ◌≡◌, refl, ◌||◌, Option, none, some, [], ◌==◌, Bool-cases, Option-cases, inl, inr,
}
use posix_bsp_perf.Images.{ImageView}
use posix_bsp_perf.Yolo.{Floats}
use posix_bsp_perf.Yolo.Decode.{ObjDetectParams}
use posix_bsp_perf.Dnn.{DnnEngine, DnnPlugin, DnnObjDetector, push_input, run_obj_detect}
use posix_bsp_perf.Dnn.Inference.{Inferred, with_scales, infer_scaled, run_dnn_inference}

module _ (fl : Floats) (of_size : ℕ → fl.Float) (e : DnnEngine) where
  abbrev Result : Type 0
  Result = Option (Inferred fl of_size e)

  -- No boxes, and the parameters and the detector as they were.
  abbrev pub nothing : ObjDetectParams fl → DnnObjDetector fl e → Result
  nothing params d = some (record { boxes = []; params = params; detector = d })

  -- What holds of the early returns and of a run on a frame of that description holds of the call.
  pub run_dnn_inference_cases :
      (P : Result → Type 0) (plugin : Option (DnnPlugin fl e)) (view : ImageView)
      (params : ObjDetectParams fl) (d : DnnObjDetector fl e)
      → P (nothing params d)
      → ((v : ImageView) → P (nothing params (push_input fl e v d)))
      → ((v : ImageView)
          → P (
              infer_scaled fl of_size e plugin
                (with_scales fl of_size e v params)
                (push_input fl e v d)))
      → P (run_dnn_inference fl of_size e plugin view params d)
  unfolding run_dnn_inference
  run_dnn_inference_cases P plugin view params d early flat_frame rest =
      let flat = view.desc.width == 0 || view.desc.height == 0 in
      elim (Option-cases view.pixels) [
        | inl null ↦ rw (null) early
        | inr (bytes, there) ↦ elim (Bool-cases (view.desc.data_size == 0)) [
          | inl t ↦ rw (there, t) early
          | inr f ↦ elim (Bool-cases flat) [
            | inl t ↦ rw (there, f, t) (flat_frame (record view { pixels = some bytes }))
            | inr g ↦ rw (there, f, g) (rest (record view { pixels = some bytes }))
          ]
        ]
      ]

  infer_scaled-IsSome :
      (plugin : Option (DnnPlugin fl e)) (params : ObjDetectParams fl) (view : ImageView)
      (d : DnnObjDetector fl e)
      → (r : Inferred fl of_size e) × (infer_scaled fl of_size e plugin params
            (push_input fl e view d)
          ≡ some r)
  unfolding infer_scaled run_obj_detect push_input
  infer_scaled-IsSome none params view d =
      let tiny = fl.le params.scale_width fl.nought || fl.le params.scale_height fl.nought in
      elim (Bool-cases tiny) [ inl t ↦ rw (t) (_, refl) | inr f ↦ rw (f) (_, refl) ]
  infer_scaled-IsSome (some p) params view d =
      let tiny = fl.le params.scale_width fl.nought || fl.le params.scale_height fl.nought in
      elim (Bool-cases tiny) [
        | inl t ↦ rw (t) (_, refl)
        | inr f ↦ elim (Option-cases (p.pre_process params view e.no_tensor).1) [
          | inl thrown ↦ rw (f, thrown) (_, refl)
          | inr (tensor, made) ↦ rw (f, made) (_, refl)
        ]
      ]

  -- runDnnInference returns on every frame, with a plugin or without.
  pub run_dnn_inference-IsSome :
      (plugin : Option (DnnPlugin fl e)) (view : ImageView) (params : ObjDetectParams fl)
      (d : DnnObjDetector fl e)
      → (r : Inferred fl of_size e) × (run_dnn_inference fl of_size e plugin view params d ≡ some r)
  run_dnn_inference-IsSome plugin view params d =
      run_dnn_inference_cases (λ o. (r : Inferred fl of_size e) × (o ≡ some r)) plugin view params d
        (_, refl) (λ v. (_, refl))
        (λ v. infer_scaled-IsSome plugin (with_scales fl of_size e v params) v d)
