-- ===== src/Camera.antt =====
-- apps/data_recorder/sensor_clients/camera: the buffers of VideoDecHelper.cpp between the thread that
-- receives packets and the thread that decodes them, and the loops of CameraClient.cpp. A buffer's `id`
-- tells it from every other; only its holder writes to it. `std::sort` is the parameter `sort_buffers`,
-- and the decoder is the list of what it was given. `stale` is what a new array happens to hold.
pub mod Sorted
pub mod Pool
pub mod Owners
pub mod Frames
pub mod Latest
pub mod Packets
pub mod Stream
pub mod Threads
mod Tests
use posix_bsp_perf.Prelude.{
  ℕ, suc, ◌+◌, ◌*◌, ◌%◌, ◌^◌, Bool, true, false, Option, none, some, List, [], ◌∷◌, ◌++◌, ltb, leb,
  if◌then◌else◌, length, take, drop, drop_last,
}
use posix_bsp_perf.Buffers.{Buffer}
use posix_bsp_perf.Rtp.{RtpHeader, RtpPayload, parse_header, extract_payload}
use posix_bsp_perf.Zmq.{Socket, receive_data_more}

pub record RtpBuffer : Type 0 where
  pub id : ℕ
  pub raw_data : Buffer
  pub buffer_size : ℕ
  pub valid_data_bytes : ℕ
  pub payload : RtpPayload
  pub payload_valid : Bool

-- `next_id` names the next buffer that is allocated.
pub record VideoDecHelper : Type 0 where
  pub free_buffers : List RtpBuffer
  pub encode_pkts : List RtpBuffer
  pub decoded : List Buffer
  pub next_id : ℕ

abbrev pub free_buffer_limit : ℕ
free_buffer_limit = 30

abbrev pub reserved_encode_pkt_num : ℕ
reserved_encode_pkt_num = 30

abbrev pub no_payload : RtpPayload
no_payload = record { offset = none; size = 0 }

unfoldable pub create_new_rtp_buffer : Buffer → ℕ → VideoDecHelper → RtpBuffer × VideoDecHelper
create_new_rtp_buffer stale min_size h = (
  record {
    id = h.next_id;
    raw_data = stale;
    buffer_size = min_size * 2 % 2 ^ 64;
    valid_data_bytes = 0;
    payload = no_payload;
    payload_valid = false;
  },
  record h { next_id = h.next_id + 1 },
)

abbrev pub last : List RtpBuffer → Option RtpBuffer
last [] = none
last (b ∷ []) = some b
last (b ∷ c ∷ bs) = last (c ∷ bs)

abbrev pub cleared : RtpBuffer → RtpBuffer
cleared b = record b { valid_data_bytes = 0; payload_valid = false }

unfoldable pub get_rtp_video_buffer : Buffer → ℕ → VideoDecHelper → RtpBuffer × VideoDecHelper
unfolding create_new_rtp_buffer drop_last
get_rtp_video_buffer stale min_size h = elim (last h.free_buffers) [
  | none ↦ create_new_rtp_buffer stale min_size h
  | some b ↦
      if ltb b.buffer_size min_size
      then create_new_rtp_buffer stale min_size h
      else (cleared b, record h { free_buffers = drop_last h.free_buffers })
]

-- `while (queue.size() > limit)` the oldest goes.
unfoldable pub trim {ℓ} : {A : Type ℓ} → ℕ → List A → List A
trim limit [] = []
trim limit (b ∷ bs) =
    let rest = trim limit bs in if ltb limit (length (b ∷ bs)) then rest else b ∷ bs

-- The bytes that `decode` is given.
abbrev pub packet_data : RtpBuffer → Buffer
packet_data b = elim b.payload.offset [
  | none ↦ []
  | some at ↦ take b.payload.size (drop at b.raw_data)
]

-- A round of `decoderLoop`, up to `decode`: the packet that it takes.
unfoldable pub take_packet : VideoDecHelper → Option RtpBuffer × VideoDecHelper
take_packet h = elim h.encode_pkts [
  | [] ↦ (none, h)
  | b ∷ bs ↦ (some b, record h { encode_pkts = bs })
]

pub record CameraClient : Type 0 where
  pub min_buffer_size : ℕ
  pub rtp_info : Option RtpHeader
  pub helper : VideoDecHelper

module _ (sort_buffers : List RtpBuffer → List RtpBuffer) where
  unfoldable pub release_rtp_video_buffer : RtpBuffer → VideoDecHelper → VideoDecHelper
  unfolding trim
  release_rtp_video_buffer b h = if leb b.buffer_size 0 then h else record h {
    free_buffers = sort_buffers (trim free_buffer_limit (h.free_buffers ++ cleared b ∷ []));
  }

  -- The loop of `sendToDecoder` on the packets, the oldest first.
  unfoldable pub drop_oldest : List RtpBuffer → VideoDecHelper → VideoDecHelper
  unfolding release_rtp_video_buffer
  drop_oldest [] h = record h { encode_pkts = [] }
  drop_oldest (b ∷ bs) h =
      let rest = drop_oldest bs (release_rtp_video_buffer b h) in
      if ltb reserved_encode_pkt_num (length (b ∷ bs))
      then rest
      else record h { encode_pkts = b ∷ bs }

  unfoldable pub send_to_decoder : RtpBuffer → VideoDecHelper → VideoDecHelper
  unfolding drop_oldest
  send_to_decoder b h = drop_oldest (h.encode_pkts ++ b ∷ []) h

  -- And from `decode` on.
  unfoldable pub decode_packet : RtpBuffer → VideoDecHelper → VideoDecHelper
  unfolding release_rtp_video_buffer
  decode_packet b h =
      release_rtp_video_buffer b (record h { decoded = h.decoded ++ packet_data b ∷ [] })

  unfoldable pub decoder_round : VideoDecHelper → VideoDecHelper
  unfolding take_packet decode_packet
  decoder_round h =
      let (taken, h') = take_packet h in elim taken [ none ↦ h' | some b ↦ decode_packet b h' ]

  -- The rest of a round of `runLoop` on a message of `valid_data_bytes`.
  unfoldable pub on_message : RtpBuffer → CameraClient → CameraClient
  unfolding parse_header extract_payload send_to_decoder
  on_message b c = elim (parse_header b.raw_data b.valid_data_bytes) [
    | none ↦ c
    | some header ↦
        let payload = extract_payload b.valid_data_bytes in
        let told = record c { rtp_info = some header } in
        if leb payload.size 0 then told else record told {
          helper = send_to_decoder (record b { payload = payload; payload_valid = true }) c.helper;
        }
  ]

  -- A round of `runLoop`. `none` waits for a message.
  unfoldable pub receiver_round : Buffer → Socket → CameraClient → Option (Socket × CameraClient)
  unfolding get_rtp_video_buffer receive_data_more on_message
  receiver_round stale socket c =
      let (b, h) = get_rtp_video_buffer stale c.min_buffer_size c.helper in
      elim (receive_data_more b.raw_data b.buffer_size socket) [
        | none ↦ none
        | some r ↦
            if leb r.size 0
            then some (
              r.socket,
              record c { min_buffer_size = c.min_buffer_size * 2 % 2 ^ 64; helper = h },
            )
            else some (
              r.socket,
              on_message (record b { raw_data = r.buffer; valid_data_bytes = r.size })
                  (record c { helper = h }),
            )
      ]
