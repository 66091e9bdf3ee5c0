-- ===== src/SharedMem/Ring.antt =====
-- The slots as a ring: what is published stays readable for a while.
use posix_bsp_perf.Prelude.{
  wrap, leb, ℕ, suc, ◌+◌, ◌-◌, ◌%◌, ◌≤◌, ◌<◌, ◌≡◌, ◌≢◌, refl, sym, ap, subst, ◌∙◌, Option, none,
  some, List, [], ◌∷◌, ◌++◌, length, arith, if◌then◌else◌, All, take_all,
}
use native.Mathlib.Nat.{mod-lt}
use posix_bsp_perf.Buffers.{Buffer}
use posix_bsp_perf.SharedMem.{
  SharedMemPublisher, get_free_slot_index, publish_data, receive_shared_mem_data,
}
use posix_bsp_perf.SharedMem.Slots.{IsMapped, mirror, publish_data-Stored}

-- A frame: the message for the topic and the data for the memory.
pub record Frame : Type 0 where
  pub msg : Buffer
  pub bytes : Buffer

-- A publisher takes the next slot for each frame. `none` is a fault.
unfoldable pub publish_frame : Frame → SharedMemPublisher → Option SharedMemPublisher
publish_frame f p = elim (get_free_slot_index p) [
  | none ↦ none
  | some (i, p1) ↦ elim (publish_data f.msg f.bytes i p1) [ none ↦ none | some (ok, p2) ↦ some p2 ]
]

unfoldable pub publish_frames : List Frame → SharedMemPublisher → Option SharedMemPublisher
unfolding publish_frame
publish_frames [] p = some p
publish_frames (f ∷ fs) p = elim (publish_frame f p) [
  | none ↦ none
  | some p' ↦ publish_frames fs p'
]

pub record IsRing (p : SharedMemPublisher) : Type 0 where
  pub mapped : IsMapped p
  pub turning : p.current_slot_index < p.slots

abbrev pub Fits : SharedMemPublisher → Frame → Type 0
Fits p f = length f.bytes ≤ p.single_buffer_size

-- What publishing one frame does.
pub record Published (p : SharedMemPublisher) (f : Frame) (p' : SharedMemPublisher) : Type 0 where
  pub ran : publish_frame f p ≡ some p'
  pub ring : IsRing p'
  pub topic : p'.published ≡ p.published ++ f.msg ∷ []
  pub slots : p'.slots ≡ p.slots
  pub size : p'.single_buffer_size ≡ p.single_buffer_size
  pub next : p'.current_slot_index ≡ (p.current_slot_index + 1) % p.slots
  pub here :
      receive_shared_mem_data p'.memory (length f.bytes) p.current_slot_index (mirror p)
      ≡ some (some f.bytes)
  pub others :
      (j n : ℕ)
      → j < p.slots
      → j ≢ p.current_slot_index
      → receive_shared_mem_data p'.memory n j (mirror p)
        ≡ receive_shared_mem_data p.memory n j (mirror p)

pub taken :
    (p : SharedMemPublisher)
    → 0 < p.slots
    → get_free_slot_index p
      ≡ some (
        p.current_slot_index,
        record p { current_slot_index = (p.current_slot_index + 1) % p.slots },
      )
unfolding get_free_slot_index
taken p h = ground arith

pub publish_frame_lem :
    (f : Frame) (p : SharedMemPublisher)
    → IsRing p
    → Fits p f
    → (p' : SharedMemPublisher) × Published p f p'
unfolding publish_frame
publish_frame_lem f p r fits =
    let i = p.current_slot_index in
    let p1 = record p { current_slot_index = (i + 1) % p.slots } in
    let (p2, done, st) = publish_data-Stored p1 i f.bytes r.mapped r.turning fits f.msg in
    let some_slots : 0 < p.slots = omega (arith, r.turning) in
    (
      p2,
      record {
        ran = rw (taken p some_slots, publish_frame) (rw (done) refl);
        ring = record {
          mapped = st.mapped;
          turning = omega (arith, st.index, st.slots, mod-lt (i + 1) some_slots);
        };
        topic = st.topic;
        slots = st.slots;
        size = st.size;
        next = st.index;
        here =
            st.here (length f.bytes) (omega arith)
            ∙ ap (λ b. some (some b)) (take_all f.bytes (length f.bytes) (omega arith));
        others = st.others;
      },
    )

-- How many frames can be published before slot `j` is written again.
abbrev gap : ℕ → ℕ → ℕ → ℕ
gap current j slots = if leb current j then j - current else j + slots - current

next_slot : (i slots : ℕ) → i < slots → (i + 1) % slots ≡ (if leb slots (i + 1) then 0 else i + 1)
next_slot i slots h =
    let one : i + 1 ≡ suc i = omega arith in ap (λ m. m % slots) one ∙ sym (wrap slots i h)

gap_step :
    (current j slots : ℕ)
    → current < slots
    → j < slots
    → 0 < gap current j slots
    → gap ((current + 1) % slots) j slots + 1 ≡ gap current j slots
gap_step current j slots h k more = rw (next_slot current slots h) (ground arith)

-- The slot that was just written has the whole ring ahead of it.
gap_after : (i slots : ℕ) → i < slots → gap ((i + 1) % slots) i slots + 1 ≡ slots
gap_after i slots h = rw (next_slot i slots h) (ground arith)

-- The reads at slot `j` do not change while its gap lasts.
publish_frames_keep :
    (fs : List Frame) (p : SharedMemPublisher) (j n : ℕ)
    → IsRing p
    → All (Fits p) fs
    → j < p.slots
    → length fs ≤ gap p.current_slot_index j p.slots
    → (p' : SharedMemPublisher) × (publish_frames fs p ≡ some p')
      × (receive_shared_mem_data p'.memory n j (mirror p)
          ≡ receive_shared_mem_data p.memory n j (mirror p))
unfolding publish_frames
publish_frames_keep [] p j n r fit inside low = (p, refl, refl)
publish_frames_keep (f ∷ fs) p j n r fit inside low =
    let (p1, st) = publish_frame_lem f p r fit.0 in
    let apart : j ≢ p.current_slot_index = λ e. absurd (ground arith) in
    let step = gap_step p.current_slot_index j p.slots r.turning inside (omega arith) in
    let low' : length fs ≤ gap p1.current_slot_index j p1.slots =
      rw (st.next, st.slots) (omega arith) in
    let fit' : All (Fits p1) fs =
      subst (λ n. All (λ g. length g.bytes ≤ n) fs) (sym st.size) fit.1 in
    let (p', ran, same) =
      publish_frames_keep fs p1 j n st.ring fit' (omega (arith, st.slots)) low' in
    let geometry : mirror p1 ≡ mirror p = ground (arith, st.slots, st.size) in
    (
      p',
      rw (st.ran, publish_frames) ran,
      subst (λ m. receive_shared_mem_data p'.memory n j m ≡ receive_shared_mem_data p1.memory n j m)
            geometry same
          ∙ st.others j n inside apart,
    )

-- A frame that is published into a ring stays readable, whole, in the slot that it was given, while
-- fewer further frames are published than the ring has slots. No frame is larger than a slot.
pub publish_frames-publish_frame :
    (f : Frame) (fs : List Frame) (p : SharedMemPublisher)
    → IsRing p
    → All (Fits p) (f ∷ fs)
    → length fs < p.slots
    → (p' : SharedMemPublisher) × (publish_frames (f ∷ fs) p ≡ some p')
      × (receive_shared_mem_data p'.memory (length f.bytes) p.current_slot_index (mirror p)
          ≡ some (some f.bytes))
unfolding publish_frames
publish_frames-publish_frame f fs p r fit few =
    let i = p.current_slot_index in
    let (p1, st) = publish_frame_lem f p r fit.0 in
    let fit' : All (Fits p1) fs =
      subst (λ n. All (λ g. length g.bytes ≤ n) fs) (sym st.size) fit.1 in
    let low : length fs ≤ gap p1.current_slot_index i p1.slots =
      rw (st.next, st.slots) (omega (arith, gap_after i p.slots r.turning)) in
    let (p', ran, same) =
      publish_frames_keep fs p1 i (length f.bytes) st.ring fit' (omega (arith, st.slots, r.turning))
        low in
    let geometry : mirror p1 ≡ mirror p = ground (arith, st.slots, st.size) in
    (
      p',
      rw (st.ran, publish_frames) ran,
      subst
            (λ m.
              receive_shared_mem_data p'.memory (length f.bytes) i m
              ≡ receive_shared_mem_data p1.memory (length f.bytes) i m)
            geometry same
          ∙ st.here,
    )
