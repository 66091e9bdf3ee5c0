-- ===== src/Dnn/Tests.antt =====
-- Runs of the small network.
use posix_bsp_perf.Prelude.{◌≡◌, refl, none, some, [], ◌∷◌}
use posix_bsp_perf.Dnn.{run_obj_detect}
use posix_bsp_perf.Dnn.Inference.{run_dnn_inference}
use posix_bsp_perf.Dnn.Fresh.{seen, with_leftovers, run_dnn_inference_fresh}
use posix_bsp_perf.Dnn.Lent.{Lends, Quiet, Returns, run_dnn_inference-Returns}
use posix_bsp_perf.Dnn.Samples.{naturals, counting, box, plugin, params, view, detector}

counting-Lends : Lends counting (λ s. s)
counting-Lends = record {
  pushes = λ t s. refl;
  runs = λ s. refl;
  pops = λ o s. refl;
  releases = λ o s. refl;
}

plugin-Quiet : Quiet naturals (λ n. n) counting (λ s. s) plugin
plugin-Quiet path p o boxes e = absurd cc

two_boxes :
    seen naturals
      (λ n. n)
      counting
      (run_dnn_inference naturals
        (λ n. n)
        counting
        (some plugin)
        (view (4 ∷ 5 ∷ 6 ∷ []))
        params
        detector)
    ≡ some (box 7 ∷ box 7 ∷ [], record params { scale_width = 4; scale_height = 8 }, 5)
unfolding run_dnn_inference run_obj_detect
two_boxes = refl

run_dnn_inference_fresh_example :
    seen naturals
      (λ n. n)
      counting
      (run_dnn_inference naturals
        (λ n. n)
        counting
        (some plugin)
        (view (4 ∷ 5 ∷ 6 ∷ []))
        params
        (with_leftovers naturals (λ n. n) counting none (box 1 ∷ []) detector))
    ≡ seen naturals
        (λ n. n)
        counting
        (run_dnn_inference naturals
          (λ n. n)
          counting
          (some plugin)
          (view (4 ∷ 5 ∷ 6 ∷ []))
          params
          detector)
run_dnn_inference_fresh_example =
    run_dnn_inference_fresh naturals (λ n. n) counting plugin (view (4 ∷ 5 ∷ 6 ∷ [])) params
      detector none (box 1 ∷ [])

run_dnn_inference-Returns_example :
    Returns naturals
      (λ n. n)
      counting
      (λ s. s)
      5
      (run_dnn_inference naturals
        (λ n. n)
        counting
        (some plugin)
        (view (4 ∷ 5 ∷ 6 ∷ []))
        params
        detector)
run_dnn_inference-Returns_example =
    run_dnn_inference-Returns naturals (λ n. n) counting (λ s. s) plugin (view (4 ∷ 5 ∷ 6 ∷ []))
      params detector counting-Lends plugin-Quiet
