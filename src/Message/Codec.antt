-- ===== src/Message/Codec.antt =====
-- A packet's head reads back.
use native.Mathlib.Nat.{pow-suc}
use posix_bsp_perf.Prelude.{
  ℕ, zero, suc, ◌+◌, ◌/◌, ◌%◌, ◌^◌, ◌≤◌, ◌<◌, ◌≡◌, refl, ◌∙◌, ap, some, List, ◌++◌, arith, length,
  length-append, drop, append_assoc, drop-append,
}
use posix_bsp_perf.Message.{put_le, get_le, read_head, packet, sizeof_msg_head}

pub length-put_le : (width v : ℕ) → length (put_le width v) ≡ width
unfolding put_le
length-put_le zero v = refl
length-put_le (suc width) v = ap suc (length-put_le width (v / 256))

get_le-put_le :
    (width v : ℕ) (rest : List ℕ) → v < 256 ^ width → get_le width (put_le width v ++ rest) ≡ v
unfolding put_le get_le
get_le-put_le zero v rest h = omega arith
get_le-put_le (suc width) v rest h =
    let small : v / 256 < 256 ^ width = omega (arith, pow-suc 256 width) in
    omega (arith, get_le-put_le width (v / 256) rest small)

pub length-packet :
    (padding cmd_id : ℕ) (bytes : List ℕ)
    → length (packet padding cmd_id bytes) ≡ sizeof_msg_head + length bytes
unfolding packet
length-packet padding cmd_id bytes = omega arith

read_head-eq_some :
    (buffer : List ℕ) (cmd_id n : ℕ)
    → sizeof_msg_head ≤ length buffer
    → get_le 8 buffer ≡ cmd_id
    → get_le 4 (drop 8 buffer) ≡ n
    → read_head buffer ≡ some (record { cmd_id = cmd_id; length = n })
unfolding read_head
read_head-eq_some buffer cmd_id n h p q = ground arith

-- The head of a packet is read back, also with more bytes behind it, if the command id fits a
-- size_t and the data's length an unsigned int.
pub read_head-packet :
    (padding cmd_id : ℕ) (bytes rest : List ℕ)
    → cmd_id < 2 ^ 64
    → length bytes < 2 ^ 32
    → read_head (packet padding cmd_id bytes ++ rest)
      ≡ some (record { cmd_id = cmd_id; length = length bytes })
read_head-packet padding cmd_id bytes rest h k =
    let tail = put_le 4 padding ++ bytes in
    let n = put_le 4 (length bytes % 2 ^ 32) in
    let fits : length bytes % 2 ^ 32 ≡ length bytes = omega arith in
    let split : packet padding cmd_id bytes ++ rest ≡ put_le 8 cmd_id ++ (n ++ (tail ++ rest)) =
      unfold packet in
      append_assoc (put_le 8 cmd_id) (n ++ tail) rest
      ∙ ap (◌++◌ (put_le 8 cmd_id)) (append_assoc n tail rest) in
    read_head-eq_some _ cmd_id (length bytes)
      (omega (
        arith,
        length-append (packet padding cmd_id bytes) rest,
        length-packet padding cmd_id bytes,
      ))
      (ap (get_le 8) split ∙ get_le-put_le 8 cmd_id _ h)
      (ap (λ b. get_le 4 (drop 8 b)) split
        ∙ ap (get_le 4) (drop-append (put_le 8 cmd_id) _ 8 (length-put_le 8 cmd_id))
        ∙ get_le-put_le 4 _ _ (omega arith)
        ∙ fits)

-- The data of a packet stands behind its head.
pub drop-packet :
    (padding cmd_id : ℕ) (bytes rest : List ℕ)
    → drop sizeof_msg_head (packet padding cmd_id bytes ++ rest) ≡ bytes ++ rest
unfolding packet
drop-packet padding cmd_id bytes rest = refl
