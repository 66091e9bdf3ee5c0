-- ===== src/Message.antt =====
-- bsp/bsp_sockets/impl/MsgHead.hpp and the packets that TcpConnection.cpp and TcpClient.cpp build
-- from a head and its data. Bytes are numbers. A head is copied by memcpy, so its layout is that of
-- the LP64 little-endian targets of the repository (x86-64, aarch64): 8 bytes of `cmd_id`, 4 bytes
-- of `length`, 4 bytes of padding that the code leaves unset.
pub mod Codec
use posix_bsp_perf.Prelude.{
  ℕ, zero, suc, ◌+◌, ◌-◌, ◌*◌, ◌/◌, ◌%◌, ◌^◌, Bool, ◌||◌, Option, none, some, List, [], ◌∷◌, ◌++◌,
  ltb, leb, if◌then◌else◌, length, drop,
}

-- `sizeof(size_t) + sizeof(int)`
abbrev pub msg_head_length : ℕ
msg_head_length = 12

-- `sizeof(msgHead)`, with its padding
abbrev pub sizeof_msg_head : ℕ
sizeof_msg_head = 16

abbrev pub msg_length_limit : ℕ
msg_length_limit = 65524

-- `length` is the 32 bits of the `int`; it is negative from 2 ^ 31 on.
pub record MsgHead : Type 0 where
  pub cmd_id : ℕ
  pub length : ℕ

unfoldable pub put_le : ℕ → ℕ → List ℕ
put_le zero v = []
put_le (suc width) v = (v % 256) ∷ put_le width (v / 256)

unfoldable pub get_le : ℕ → List ℕ → ℕ
get_le zero bytes = 0
get_le (suc width) [] = 0
get_le (suc width) (b ∷ bytes) = b + 256 * get_le width bytes

-- `memcpy(&head, buffer.data(), sizeof(msgHead))`; `none` is a read past the end of the buffer.
unfoldable pub read_head : List ℕ → Option MsgHead
unfolding get_le
read_head buffer =
    if ltb (length buffer) sizeof_msg_head
    then none
    else some (record { cmd_id = get_le 8 buffer; length = get_le 4 (drop 8 buffer) })

-- The buffer that `sendData` queues. `padding` is what stood in the head's unset bytes.
unfoldable pub packet : ℕ → ℕ → List ℕ → List ℕ
unfolding put_le
packet padding cmd_id bytes =
    put_le 8 cmd_id ++ (put_le 4 (length bytes % 2 ^ 32) ++ (put_le 4 padding ++ bytes))

-- `head.length > MSG_LENGTH_LIMIT || head.length < 0`
unfoldable pub is_bad_length : ℕ → Bool
is_bad_length n = ltb msg_length_limit n || leb (2 ^ 31) n
