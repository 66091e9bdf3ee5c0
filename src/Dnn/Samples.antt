-- ===== src/Dnn/Samples.antt =====
-- A small network for runs: its tensor is the number of bytes, and it finds a box for each of them.
use posix_bsp_perf.Prelude.{
  ℕ, false, ◌+◌, ◌-◌, ◌*◌, ◌/◌, ◌++◌, false, none, some, List, [], ◌∷◌, ltb, leb, if◌then◌else◌,
  replicate,
}
use posix_bsp_perf.Buffers.{Buffer}
use posix_bsp_perf.Images.{ImageDesc, ImageView}
use posix_bsp_perf.Yolo.{Floats, int32}
use posix_bsp_perf.Yolo.Decode.{ObjDetectParams}
use posix_bsp_perf.Yolo.Run.{ObjDetectOutputBox}
use posix_bsp_perf.Dnn.{DnnEngine, DnnPlugin, DnnObjDetector}

abbrev pub naturals : Floats
naturals = record {
  Float = ℕ;
  nought = 0;
  half = 0;
  one = 1;
  two = 2;
  add = λ a b. a + b;
  sub = λ a b. a - b;
  mul = λ a b. a * b;
  div = λ a b. a / b;
  gt = λ a b. ltb b a;
  le = λ a b. leb a b;
  fmin = λ a b. if ltb a b then a else b;
  fmax = λ a b. if ltb a b then b else a;
  of_int8 = λ a. a - 128;
  of_int32 = λ a. a - 2147483648;
  to_int32 = λ a. a + 2147483648;
  is_invalid = λ a. false;
}

-- The state counts the outputs that are lent out.
abbrev pub counting : DnnEngine
counting = record {
  State = ℕ;
  Tensor = ℕ;
  Outputs = ℕ;
  no_tensor = 0;
  no_outputs = 0;
  push_input_data = λ t s. s;
  run_inference = λ s. s;
  pop_output_data = λ o s. (2, s + 1);
  release_output_data = λ o s. s - 1;
}

abbrev pub box : ℕ → ObjDetectOutputBox naturals
box n = record {
  bbox = record { left = int32 n; top = int32 0; right = int32 (n + 1); bottom = int32 1 };
  score = 1;
  label = 99 ∷ [];
}

-- Its boxes go behind those that are there.
abbrev pub plugin : DnnPlugin naturals counting
plugin = record {
  pre_process = λ params view t. (params, some 2);
  post_process = λ path params o boxes. record {
    input_data = o;
    output_data = boxes ++ replicate o (box 7);
    result = some (int32 0);
  };
}

abbrev pub params : ObjDetectParams naturals
params = record {
  model_input_width = 8;
  model_input_height = 8;
  conf_threshold = 10;
  nms_threshold = 0;
  scale_width = 1;
  scale_height = 1;
  pads = record { left = int32 0; top = int32 0; right = int32 0; bottom = int32 0 };
  quantize_zero_points = [];
  quantize_scales = [];
}

abbrev pub nv12 : List ℕ
nv12 = 78 ∷ 86 ∷ []

abbrev pub desc : ImageDesc
desc = record {
  width = 2;
  height = 1;
  width_stride = 2;
  height_stride = 1;
  format = nv12;
  data_size = 3;
}

abbrev pub view : Buffer → ImageView
view bytes = record { desc = desc; plane_count = 1; pixels = some bytes; size = 3; row_stride = 2 }

abbrev pub detector : DnnObjDetector naturals counting
detector = record { engine = 5; data_input = none; data_output_vector = []; label_text_path = [] }
