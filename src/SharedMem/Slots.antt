-- ===== src/SharedMem/Slots.antt =====
-- What one slot of the shared memory holds after a publication.
use posix_bsp_perf.Prelude.{
  Bool-cases, ltb→lt, ltb→le, ℕ, zero, suc, ◌+◌, ◌-◌, ◌*◌, ◌≤◌, ◌<◌, ◌≡◌, ◌≢◌, inl, inr, refl, sym,
  ap, ◌∙◌, true, some, [], ◌∷◌, ◌++◌, ltb, length, length-append, length-take, length-drop, take,
  drop, min, drop-append, drop-add, arith,
}
use posix_bsp_perf.Buffers.{Buffer}
use posix_bsp_perf.SharedMem.{
  SharedMemPublisher, SharedMemSubscriber, publish_data, receive_shared_mem_data,
}

-- The memory has exactly the slots.
abbrev pub IsMapped : SharedMemPublisher → Type 0
IsMapped p = length p.memory ≡ p.slots * p.single_buffer_size

-- A subscriber with the publisher's geometry.
abbrev pub mirror : SharedMemPublisher → SharedMemSubscriber
mirror p = record { slots = p.slots; single_buffer_size = p.single_buffer_size }

take-append_left : (n : ℕ) (xs ys : Buffer) → n ≤ length xs → take n (xs ++ ys) ≡ take n xs
take-append_left zero xs ys h = refl
take-append_left (suc n) [] ys h = absurd (omega arith)
take-append_left (suc n) (x ∷ xs) ys h = ap (◌∷◌ x) (take-append_left n xs ys (omega arith))

read_before :
    (a n at : ℕ) (memory later : Buffer)
    → a + n ≤ at
    → at ≤ length memory
    → take n (drop a (take at memory ++ later)) ≡ take n (drop a memory)
read_before a zero at memory later h k = refl
read_before a (suc n) zero memory later h k = absurd (omega arith)
read_before a (suc n) (suc at) [] later h k = absurd (omega arith)
read_before zero (suc n) (suc at) (x ∷ memory) later h k =
    ap (◌∷◌ x) (read_before zero n at memory later (omega arith) (omega arith))
read_before (suc a) (suc n) (suc at) (x ∷ memory) later h k =
    read_before a (suc n) at memory later (omega arith) (omega arith)

-- The memory after a write.
abbrev written : Buffer → ℕ → Buffer → Buffer
written memory at bytes = take at memory ++ (bytes ++ drop (at + length bytes) memory)

drop-written :
    (memory : Buffer) (at : ℕ) (bytes : Buffer)
    → at ≤ length memory
    → drop at (written memory at bytes) ≡ bytes ++ drop (at + length bytes) memory
drop-written memory at bytes h =
    drop-append (take at memory) _ at (omega (arith, length-take at memory))

length-written :
    (memory : Buffer) (at : ℕ) (bytes : Buffer)
    → at + length bytes ≤ length memory
    → length (written memory at bytes) ≡ length memory
length-written memory at bytes h = omega (
  arith,
  length-append (take at memory) (bytes ++ drop (at + length bytes) memory),
  length-append bytes (drop (at + length bytes) memory),
  length-take at memory,
  length-drop (at + length bytes) memory,
)

read_after :
    (a at k : ℕ) (memory bytes : Buffer)
    → at ≤ length memory
    → a ≡ (at + length bytes) + k
    → drop a (written memory at bytes) ≡ drop a memory
read_after a at k memory bytes h e =
    let w = written memory at bytes in
    let there : a ≡ at + (length bytes + k) = omega arith in
    ap (λ n. drop n w) there
    ∙ drop-add at (length bytes + k) w
    ∙ ap (drop (length bytes + k)) (drop-written memory at bytes h)
    ∙ drop-add (length bytes) k _
    ∙ ap (drop k) (drop-append bytes _ (length bytes) refl)
    ∙ sym (drop-add (at + length bytes) k memory)
    ∙ ap (λ n. drop n memory) (sym e)

-- Slots do not run into one another or out of the memory.
slot_inside : (i slots size : ℕ) → i < slots → i * size + size ≤ slots * size
slot_inside i slots size h = grind arith

slot_apart : (i j size : ℕ) → i < j → i * size + size ≤ j * size
slot_apart i j size h = grind arith

-- What has become of the publisher: the slot holds the data, the other slots what they held, and the
-- message is on the topic.
pub record Stored (p : SharedMemPublisher) (msg : Buffer) (slot : ℕ) (bytes : Buffer)
    (p' : SharedMemPublisher) : Type 0 where
  pub mapped : IsMapped p'
  pub slots : p'.slots ≡ p.slots
  pub size : p'.single_buffer_size ≡ p.single_buffer_size
  pub index : p'.current_slot_index ≡ p.current_slot_index
  pub topic : p'.published ≡ p.published ++ msg ∷ []
  pub here :
      (n : ℕ)
      → n ≤ length bytes
      → receive_shared_mem_data p'.memory n slot (mirror p) ≡ some (some (take n bytes))
  pub others :
      (j n : ℕ)
      → j < p.slots
      → j ≢ slot
      → receive_shared_mem_data p'.memory n j (mirror p)
        ≡ receive_shared_mem_data p.memory n j (mirror p)

module _ (p : SharedMemPublisher) (slot : ℕ) (bytes : Buffer) (m : IsMapped p)
    (inside : slot < p.slots) (fits : length bytes ≤ p.single_buffer_size) where
  within : slot * p.single_buffer_size + length bytes ≤ length p.memory
  within = omega (arith, m, slot_inside slot p.slots p.single_buffer_size inside)

  abbrev after : Buffer
  after = written p.memory (slot * p.single_buffer_size) bytes

  receive_here :
      (n : ℕ)
      → n ≤ length bytes
      → receive_shared_mem_data after n slot (mirror p) ≡ some (some (take n bytes))
  unfolding receive_shared_mem_data
  receive_here n h =
      let at = slot * p.single_buffer_size in
      let low : min p.single_buffer_size n ≡ n = omega arith in
      let got : take n (drop at after) ≡ take n bytes =
        ap (take n) (drop-written p.memory at bytes (omega (arith, within)))
        ∙ take-append_left n bytes _ h in
      let room : at + n ≤ length after =
        omega (arith, within, length-written p.memory at bytes within) in
      ground (arith, low, got, room)

  same_elsewhere :
      (j k : ℕ)
      → j ≢ slot
      → k ≤ p.single_buffer_size
      → take k (drop (j * p.single_buffer_size) after)
        ≡ take k (drop (j * p.single_buffer_size) p.memory)
  same_elsewhere j k ne low =
      let size = p.single_buffer_size in
      elim (Bool-cases (ltb j slot)) [
        | inl less ↦
            read_before (j * size) k (slot * size) p.memory _
              (omega (arith, slot_apart j slot size (ltb→lt j slot less))) (omega (arith, within))
        | inr more ↦
            let above : slot < j = omega (arith, ltb→le j slot more) in
            let apart = slot_apart slot j size above in
            ap (take k) (
              read_after (j * size) (slot * size) (j * size - (slot * size + length bytes)) p.memory
                bytes (omega (arith, within)) (omega arith))
      ]

  receive_other :
      (j n : ℕ)
      → j < p.slots
      → j ≢ slot
      → receive_shared_mem_data after n j (mirror p)
        ≡ receive_shared_mem_data p.memory n j (mirror p)
  unfolding receive_shared_mem_data
  receive_other j n h ne = ground (
    arith,
    same_elsewhere j (min p.single_buffer_size n) ne (omega arith),
    length-written p.memory (slot * p.single_buffer_size) bytes within,
  )

  -- Publishing to a slot, with data no larger than a slot, succeeds without touching memory outside
  -- the slot: a subscriber then reads from the slot what was published, as many bytes of it as it
  -- asks for, and from every other slot what it read before.
  pub publish_data-Stored :
      (msg : Buffer)
      → (p' : SharedMemPublisher) × (publish_data msg bytes slot p ≡ some (true, p'))
        × Stored p msg slot bytes p'
  unfolding publish_data
  publish_data-Stored msg = (
    record p { memory = after; published = p.published ++ msg ∷ [] },
    ground (arith, within),
    record {
      mapped = length-written p.memory (slot * p.single_buffer_size) bytes within ∙ m;
      slots = refl;
      size = refl;
      index = refl;
      topic = refl;
      here = receive_here;
      others = receive_other;
    },
  )
