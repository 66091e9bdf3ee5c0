-- ===== src/Dnn/Lent.antt =====
-- dnnObjDetector.cpp and runDnnInference: the outputs that the engine lends to the detector.
use posix_bsp_perf.Prelude.{
  ℕ, ◌+◌, ◌-◌, ◌≡◌, ◌≢◌, refl, ◌||◌, Option, none, some, List, [], Bool-cases, Option-cases, inl,
  inr, arith,
}
use posix_bsp_perf.Images.{ImageView}
use posix_bsp_perf.Yolo.{Floats}
use posix_bsp_perf.Yolo.Decode.{ObjDetectParams}
use posix_bsp_perf.Yolo.Run.{ObjDetectOutputBox}
use posix_bsp_perf.Dnn.{
  DnnEngine, DnnPlugin, DnnObjDetector, push_input, run_obj_detect, infer, post_and_release,
}
use posix_bsp_perf.Dnn.Cases.{run_dnn_inference_cases}
use posix_bsp_perf.Dnn.Inference.{Inferred, with_scales, boxes_of, infer_scaled, run_dnn_inference}

-- What an engine promises about the number `lent` of outputs that have not been given back.
pub record Lends (e : DnnEngine) (lent : e.State → ℕ) : Type 0 where
  pub pushes : (t : e.Tensor) (s : e.State) → lent (e.push_input_data t s) ≡ lent s
  pub runs : (s : e.State) → lent (e.run_inference s) ≡ lent s
  pub pops : (o : e.Outputs) (s : e.State) → lent (e.pop_output_data o s).1 ≡ lent s + 1
  pub releases : (o : e.Outputs) (s : e.State) → lent (e.release_output_data o s) ≡ lent s - 1

module _ (fl : Floats) (of_size : ℕ → fl.Float) (e : DnnEngine) (lent : e.State → ℕ) where
  -- `postProcess` never throws.
  abbrev pub Quiet : DnnPlugin fl e → Type 0
  Quiet p =
      (path : List ℕ) (params : ObjDetectParams fl) (o : e.Outputs)
      (boxes : List (ObjDetectOutputBox fl))
      → (p.post_process path params o boxes).result ≢ none

  lent_back :
      (p : DnnPlugin fl e) (params : ObjDetectParams fl) (d : DnnObjDetector fl e) (t : e.Tensor)
      → Lends e lent
      → Quiet p
      → lent (post_and_release fl e p params (infer fl e t d).0 (infer fl e t d).1).detector.engine
        ≡ lent d.engine
  unfolding infer post_and_release
  lent_back p params d t l q =
      let s = e.run_inference (e.push_input_data t d.engine) in
      let popped = e.pop_output_data e.no_outputs s in
      let same : lent popped.1 ≡ lent d.engine + 1 = omega (
        arith,
        l.pops e.no_outputs s,
        l.runs (e.push_input_data t d.engine),
        l.pushes t d.engine,
      ) in
      let posted = p.post_process d.label_text_path params popped.0 [] in
      elim (Option-cases posted.result) [
        | inl thrown ↦ absurd (q d.label_text_path params popped.0 [] thrown)
        | inr (ret, done) ↦ rw (done) (omega (arith, l.releases posted.input_data popped.1, same))
      ]

  -- The call returns, with `n` outputs lent out.
  abbrev pub Returns : ℕ → Option (Inferred fl of_size e) → Type 0
  Returns n o = (r : Inferred fl of_size e) × (o ≡ some r) × (lent r.detector.engine ≡ n)

  infer_scaled-Returns :
      (p : DnnPlugin fl e) (params : ObjDetectParams fl) (view : ImageView)
      (d : DnnObjDetector fl e)
      → Lends e lent
      → Quiet p
      → Returns
          (lent d.engine)
          (infer_scaled fl of_size e (some p) params (record d { data_input = some view }))
  unfolding infer_scaled run_obj_detect boxes_of
  infer_scaled-Returns p params view d l q =
      let tiny = fl.le params.scale_width fl.nought || fl.le params.scale_height fl.nought in
      elim (Bool-cases tiny) [
        | inl t ↦ rw (t) (_, refl, refl)
        | inr f ↦ elim (Option-cases (p.pre_process params view e.no_tensor).1) [
          | inl thrown ↦ rw (f, thrown) (_, refl, refl)
          | inr (tensor, made) ↦
              let params' = (p.pre_process params view e.no_tensor).0 in
              let back = lent_back p params' (record d { data_input = some view }) tensor l q in
              rw (f, made) (_, refl, back)
        ]
      ]

  -- With a plugin whose postProcess does not throw, runDnnInference returns on every frame, and the
  -- engine, which counts what it lends, has as many outputs lent out afterwards as before.
  pub run_dnn_inference-Returns :
      (p : DnnPlugin fl e) (view : ImageView) (params : ObjDetectParams fl)
      (d : DnnObjDetector fl e)
      → Lends e lent
      → Quiet p
      → Returns (lent d.engine) (run_dnn_inference fl of_size e (some p) view params d)
  unfolding push_input
  run_dnn_inference-Returns p view params d l q =
      run_dnn_inference_cases fl of_size e (Returns (lent d.engine)) (some p) view params d
        (_, refl, refl) (λ v. (_, refl, refl))
        (λ v. infer_scaled-Returns p (with_scales fl of_size e v params) v d l q)
