-- ===== src/TrafficCam/Labels.antt =====
-- Resnet18TrafficCamNet::loadLabels and the labels of the boxes. A text is the list of its bytes.
use posix_bsp_perf.Prelude.{
  ℕ, ◌+◌, Bool, true, false, not, ◌&&◌, ◌||◌, Option, none, some, List, [], ◌∷◌, ◌==◌,
  if◌then◌else◌, length, get_elem?,
}

-- " \t\r\n"
abbrev pub is_blank : ℕ → Bool
is_blank c = (c == 32) || ((c == 9) || ((c == 13) || (c == 10)))

abbrev pub trim_left : List ℕ → List ℕ
trim_left [] = []
trim_left (c ∷ cs) = let rest = trim_left cs in if is_blank c then rest else c ∷ cs

-- `c` is kept if something behind it is.
abbrev pub trim_right : List ℕ → List ℕ
trim_right [] = []
trim_right (c ∷ cs) =
    let rest = trim_right cs in if is_blank c && (length rest == 0) then [] else c ∷ rest

abbrev pub labels_of : List (List ℕ) → List (List ℕ)
labels_of [] = []
labels_of (line ∷ lines) =
    let label = trim_right (trim_left line) in
    let rest = labels_of lines in if length label == 0 then rest else label ∷ rest

pub record Labels : Type 0 where
  pub labels : List (List ℕ)
  pub labels_loaded : Bool

-- The lines of the file, or `none` if it cannot be opened.
unfoldable pub load_labels : Option (List (List ℕ)) → Labels → Bool × Labels
load_labels file m = if m.labels_loaded then (true, m) else elim file [
  | none ↦ (false, m)
  | some lines ↦ (true, record { labels = labels_of lines; labels_loaded = true })
]

-- "Class_" and the number, which has one digit.
abbrev pub class_name : ℕ → List ℕ
class_name n = 67 ∷ 108 ∷ 97 ∷ 115 ∷ 115 ∷ 95 ∷ (48 + n) ∷ []

unfoldable pub label_for : List (List ℕ) → ℕ → List ℕ
label_for labels class_idx = elim (get_elem? labels class_idx) [
  | none ↦ class_name class_idx
  | some label ↦ label
]

-- The path of the labels may be empty.
abbrev pub labels_for : Bool → Option (List (List ℕ)) → Labels → Labels
labels_for has_path file m = if not m.labels_loaded && has_path then (load_labels file m).1 else m
