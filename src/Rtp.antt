-- ===== src/Rtp.antt =====
-- bsp/protocol/RtpReader.cpp and RtpHeader.hpp. A packet is a list of bytes, and its size is given
-- apart, as in the code; `none` stands for the result -1. The fields are composed of bytes by shifts
-- and `|`, which on bytes are products and sums. `sizeof(RtpHeader)` is 12, without padding.
pub mod Fields
mod Tests
use posix_bsp_perf.Prelude.{
  ℕ, ◌+◌, ◌-◌, ◌*◌, ◌/◌, ◌%◌, Option, none, some, List, [], ◌∷◌, ◌++◌, ltb, if◌then◌else◌, get_or,
  take, drop,
}

abbrev pub sizeof_rtp_header : ℕ
sizeof_rtp_header = 12

pub record RtpHeader : Type 0 where
  pub start_of_header : ℕ
  pub payload_type : ℕ
  pub sequence_number : ℕ
  pub timestamp : ℕ
  pub ssrc : ℕ

abbrev be16 : ℕ → ℕ → ℕ
be16 a b = 256 * a + b

abbrev be32 : ℕ → ℕ → ℕ → ℕ → ℕ
be32 a b c d = 16777216 * a + (65536 * b + (256 * c + d))

abbrev byte : List ℕ → ℕ → ℕ
byte bytes i = get_or bytes i 0

unfoldable pub parse_header : List ℕ → ℕ → Option RtpHeader
unfolding get_or
parse_header bytes size =
    if ltb size sizeof_rtp_header
    then none
    else some (record {
      start_of_header = byte bytes 0;
      payload_type = byte bytes 1;
      sequence_number = be16 (byte bytes 2) (byte bytes 3);
      timestamp = be32 (byte bytes 4) (byte bytes 5) (byte bytes 6) (byte bytes 7);
      ssrc = be32 (byte bytes 8) (byte bytes 9) (byte bytes 10) (byte bytes 11);
    })

-- The payload as an offset into the packet and a size; the offset is `none` for a null pointer.
pub record RtpPayload : Type 0 where
  pub offset : Option ℕ
  pub size : ℕ

unfoldable pub extract_payload : ℕ → RtpPayload
extract_payload pkt_size =
    if ltb pkt_size sizeof_rtp_header
    then record { offset = none; size = 0 }
    else record { offset = some sizeof_rtp_header; size = pkt_size - sizeof_rtp_header }

-- The overload that copies: `payload.assign(pkt_data + sizeof(RtpHeader), pkt_data + pkt_size)`.
unfoldable pub copy_payload : List ℕ → ℕ → Option (List ℕ)
copy_payload bytes pkt_size =
    if ltb pkt_size sizeof_rtp_header
    then none
    else some (drop sizeof_rtp_header (take pkt_size bytes))
