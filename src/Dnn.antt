-- ===== src/Dnn.antt =====
-- bsp/bsp_dnn/dnnObjDetector.cpp behind its two interfaces, IDnnEngine and IDnnObjDetectorPlugin, which
-- are records of operations here. An `int` result that the code does not look at is left out. The
-- detector copies the view of a frame and not its bytes, which its caller does not touch meanwhile.
pub mod Inference
pub mod Cases
pub mod Fresh
pub mod Lent
pub mod Samples
mod Tests
use posix_bsp_perf.Prelude.{ℕ, Option, none, some, List, []}
use posix_bsp_perf.Images.{ImageView}
use posix_bsp_perf.Yolo.{Floats, int32}
use posix_bsp_perf.Yolo.Decode.{ObjDetectParams}
use posix_bsp_perf.Yolo.Run.{ObjDetectOutputBox}

-- IDnnEngine. `Tensor` is dnnInput, and `Outputs` is the vector of dnnOutput.
pub record DnnEngine : Type 1 where
  pub State : Type 0
  pub Tensor : Type 0
  pub Outputs : Type 0
  pub no_tensor : Tensor
  pub no_outputs : Outputs
  pub push_input_data : Tensor → State → State
  pub run_inference : State → State
  pub pop_output_data : Outputs → State → Outputs × State
  pub release_output_data : Outputs → State → State

module _ (fl : Floats) (e : DnnEngine) where
  -- What `postProcess` leaves: its two vectors, and what it returns. `none` is an exception.
  pub record Posted : Type 0 where
    pub input_data : e.Outputs
    pub output_data : List (ObjDetectOutputBox fl)
    pub result : Option ℕ

  -- IDnnObjDetectorPlugin. `preProcess` may change the parameters, and fills a tensor or throws.
  pub record DnnPlugin : Type 0 where
    pub pre_process :
        ObjDetectParams fl → ImageView → e.Tensor → ObjDetectParams fl × Option e.Tensor
    pub post_process :
        List ℕ → ObjDetectParams fl → e.Outputs → List (ObjDetectOutputBox fl) → Posted

  pub record DnnObjDetector : Type 0 where
    pub engine : e.State
    pub data_input : Option ImageView
    pub data_output_vector : List (ObjDetectOutputBox fl)
    pub label_text_path : List ℕ

  unfoldable pub push_input : ImageView → DnnObjDetector → DnnObjDetector
  push_input view d = record d { data_input = some view }

  unfoldable pub pop_output : DnnObjDetector → List (ObjDetectOutputBox fl)
  pop_output d = d.data_output_vector

  -- What a run leaves, with the result as above.
  pub record Ran : Type 0 where
    pub params : ObjDetectParams fl
    pub detector : DnnObjDetector
    pub result : Option ℕ

  -- `m_dnnEngine->pushInputData`, `runInference` and `popOutputData`, in this order.
  unfoldable pub infer : e.Tensor → DnnObjDetector → e.Outputs × DnnObjDetector
  infer tensor d =
      let (outputs, engine) =
        e.pop_output_data e.no_outputs (e.run_inference (e.push_input_data tensor d.engine)) in
      (outputs, record d { engine = engine })

  -- The plugin's part behind the inference: an exception of `postProcess` leaves out the release.
  unfoldable pub post_and_release :
      DnnPlugin → ObjDetectParams fl → e.Outputs → DnnObjDetector → Ran
  post_and_release plugin params outputs d =
      let posted = plugin.post_process d.label_text_path params outputs [] in
      record {
        params = params;
        detector = record d {
          data_output_vector = posted.output_data;
          engine = elim posted.result [
            | none ↦ d.engine
            | some ret ↦ e.release_output_data posted.input_data d.engine
          ];
        };
        result = posted.result;
      }

  -- `runObjDetect`. Without a plugin, the default functions do nothing and return 0. `none` is a fault:
  -- no input has been pushed.
  unfoldable pub run_obj_detect :
      Option DnnPlugin → ObjDetectParams fl → DnnObjDetector → Option Ran
  unfolding infer post_and_release
  run_obj_detect plugin params d = elim d.data_input [
    | none ↦ none
    | some view ↦ elim plugin [
      | none ↦
          some (record {
            params = params;
            detector = (infer e.no_tensor d).1;
            result = some (int32 0);
          })
      | some p ↦
          let (params', made) = p.pre_process params view e.no_tensor in
          elim made [
            | none ↦ some (record { params = params'; detector = d; result = none })
            | some tensor ↦
                let (outputs, d') = infer tensor d in some (post_and_release p params' outputs d')
          ]
    ]
  ]
