-- ===== src/Camera/Packets.antt =====
-- CameraClient::runLoop: an RTP packet that was published in parts, up to the decoder's queue.
use posix_bsp_perf.Prelude.{
  ℕ, ◌+◌, ◌-◌, ◌^◌, ◌≤◌, ◌<◌, ◌≡◌, refl, ap, ◌∙◌, subst, true, some, List, [], ◌∷◌, ◌++◌, map,
  append_assoc, ltb, leb, if_elim, length, length-append, take-append, drop, drop-append, arith,
}
use posix_bsp_perf.Buffers.{Buffer}
use posix_bsp_perf.Rtp.{RtpHeader, parse_header, extract_payload}
use posix_bsp_perf.Rtp.Fields.{print_header}
use posix_bsp_perf.Zmq.{Socket, receive_data_more}
use posix_bsp_perf.Zmq.Parts.{publish, join, receive_data_more-publish}
use posix_bsp_perf.Camera.{
  RtpBuffer, VideoDecHelper, CameraClient, reserved_encode_pkt_num, get_rtp_video_buffer,
  packet_data, drop_oldest, send_to_decoder, on_message, receiver_round,
}
use posix_bsp_perf.Camera.Sorted.{Ordered}
use posix_bsp_perf.Camera.Pool.{get_rtp_video_buffer-Gets}

-- A message of `first` and `others`, as the publisher is given it.
pub record RtpMessage : Type 0 where
  pub first : Buffer
  pub others : List Buffer
  pub header : RtpHeader
  pub payload : Buffer

pub record IsPacket (limit : ℕ) (m : RtpMessage) : Type 0 where
  pub whole : join (m.first ∷ m.others) ≡ print_header m.header ++ m.payload
  pub some_payload : 0 < length m.payload
  pub fits : length (join (m.first ∷ m.others)) ≤ limit

parse_header-in_front :
    (h : RtpHeader) (rest : List ℕ) (n : ℕ)
    → 12 ≤ n
    → parse_header (print_header h ++ rest) n ≡ some h
unfolding parse_header print_header
parse_header-in_front h rest n long = ground (arith, long)

length-print_header : (h : RtpHeader) → length (print_header h) ≡ 12
unfolding print_header
length-print_header h = refl

-- What is pointed at behind the header is the payload.
extract_payload-print_header :
    (h : RtpHeader) (payload : Buffer)
    → extract_payload (length (print_header h ++ payload))
      ≡ record { offset = some 12; size = length payload }
unfolding extract_payload
extract_payload-print_header h payload =
    let long = length-append (print_header h) payload in
    let twelve = length-print_header h in
    let behind : length (print_header h ++ payload) - 12 ≡ length payload =
      omega (arith, long, twelve) in
    if_elim (λ r. r ≡ record { offset = some 12; size = length payload })
      (ltb (length (print_header h ++ payload)) 12)
      {y = record { offset = some 12; size = length (print_header h ++ payload) - 12 }}
      (λ e. absurd (ground (arith, e, long, twelve)))
      (λ e. ap (λ n. record { offset = some 12; size = n }) behind)

packet_data-payload :
    (h : RtpHeader) (payload tail : Buffer) (b : RtpBuffer)
    → b.raw_data ≡ (print_header h ++ payload) ++ tail
    → b.payload ≡ record { offset = some 12; size = length payload }
    → packet_data b ≡ payload
packet_data-payload h payload tail b raw at =
    let twelve = length-print_header h in
    rw
      (
        at,
        raw,
        append_assoc (print_header h) payload tail,
        drop-append (print_header h) (payload ++ tail) 12 twelve,
      )
      (take-append payload tail (length payload) refl)

module _ (sort_buffers : List RtpBuffer → List RtpBuffer) where
  drop_oldest-short :
      (bs : List RtpBuffer) (h : VideoDecHelper)
      → length bs ≤ reserved_encode_pkt_num
      → drop_oldest sort_buffers bs h ≡ record h { encode_pkts = bs }
  unfolding drop_oldest
  drop_oldest-short [] h short = refl
  drop_oldest-short (b ∷ bs) h short =
      if_elim (λ r. r ≡ record h { encode_pkts = b ∷ bs })
        (ltb reserved_encode_pkt_num (length (b ∷ bs))) (λ e. absurd (ground (arith, e, short)))
        (λ e. refl)

  send_to_decoder-room :
      (b : RtpBuffer) (h : VideoDecHelper)
      → length h.encode_pkts < reserved_encode_pkt_num
      → send_to_decoder sort_buffers b h ≡ record h { encode_pkts = h.encode_pkts ++ b ∷ [] }
  unfolding send_to_decoder
  send_to_decoder-room b h room =
      drop_oldest-short (h.encode_pkts ++ b ∷ []) h
        (omega (arith, length-append h.encode_pkts (b ∷ [])))

  -- What a round of the receiver leaves of a packet.
  pub record Takes (m : RtpMessage) (c c' : CameraClient) : Type 0 where
    pub told : c'.rtp_info ≡ some m.header
    pub same_size : c'.min_buffer_size ≡ c.min_buffer_size
    pub same_decoded : c'.helper.decoded ≡ c.helper.decoded
    pub ordered : Ordered c'.helper.free_buffers
    pub fewer : length c'.helper.free_buffers ≤ length c.helper.free_buffers
    pub longer : length c'.helper.encode_pkts ≡ length c.helper.encode_pkts + 1
    pub queued :
        map packet_data c'.helper.encode_pkts
        ≡ map packet_data c.helper.encode_pkts ++ m.payload ∷ []

  map-append-one :
      (bs : List RtpBuffer) (b : RtpBuffer)
      → map packet_data (bs ++ b ∷ []) ≡ map packet_data bs ++ packet_data b ∷ []
  map-append-one [] b = refl
  map-append-one (c ∷ bs) b = ap (packet_data c ∷◌) (map-append-one bs b)

  on_message-Takes :
      (m : RtpMessage) (tail : Buffer) (b : RtpBuffer) (c : CameraClient)
      → 0 < length m.payload
      → b.raw_data ≡ (print_header m.header ++ m.payload) ++ tail
      → b.valid_data_bytes ≡ length (print_header m.header ++ m.payload)
      → Ordered c.helper.free_buffers
      → length c.helper.encode_pkts < reserved_encode_pkt_num
      → Takes m c (on_message sort_buffers b c)
  unfolding on_message
  on_message-Takes m tail b c some_payload raw valid o room =
      let long = length-append (print_header m.header) m.payload in
      let twelve = length-print_header m.header in
      let parsed : parse_header b.raw_data b.valid_data_bytes ≡ some m.header =
        rw (raw, append_assoc (print_header m.header) m.payload tail)
          (parse_header-in_front m.header (m.payload ++ tail) b.valid_data_bytes
            (omega (arith, valid, long, twelve))) in
      let there = ap extract_payload valid ∙ extract_payload-print_header m.header m.payload in
      let p = record b { payload = extract_payload b.valid_data_bytes; payload_valid = true } in
      rw (parsed, on_message)
        (if_elim (Takes m c) (leb (extract_payload b.valid_data_bytes).size 0)
          (λ e. absurd (ground (arith, e, ap (λ v. v.size) there, some_payload)))
          (λ e. rw (send_to_decoder-room p c.helper room) (record {
            told = refl;
            same_size = refl;
            same_decoded = refl;
            ordered = o;
            fewer = omega arith;
            longer = length-append c.helper.encode_pkts (p ∷ []);
            queued =
                map-append-one c.helper.encode_pkts p
                ∙ ap (λ d. map packet_data c.helper.encode_pkts ++ d ∷ [])
                    (packet_data-payload m.header m.payload tail p raw there);
          })))

  pub receiver_round-publish :
      (stale : Buffer) (m : RtpMessage) (later : Socket) (c : CameraClient)
      → IsPacket c.min_buffer_size m
      → c.min_buffer_size < 2 ^ 63
      → Ordered c.helper.free_buffers
      → length c.helper.encode_pkts < reserved_encode_pkt_num
      → (c' : CameraClient) × (receiver_round sort_buffers stale
            (publish m.first m.others [] ++ later)
            c
          ≡ some (later, c'))
        × Takes m c c'
  unfolding receiver_round
  receiver_round-publish stale m later c is small o room =
      let (b, h) = get_rtp_video_buffer stale c.min_buffer_size c.helper in
      let g = get_rtp_video_buffer-Gets stale c.min_buffer_size c.helper o small in
      let bytes = print_header m.header ++ m.payload in
      let n = length bytes in
      let fits : length (join (m.first ∷ m.others)) ≤ b.buffer_size =
        omega (arith, is.fits, g.large) in
      let got =
        subst
          (λ w.
            receive_data_more b.raw_data b.buffer_size (publish m.first m.others [] ++ later)
            ≡ some (record {
              size = length w;
              buffer = w ++ drop (length w) b.raw_data;
              socket = later;
            }))
          is.whole
          (receive_data_more-publish m.first m.others b.raw_data b.buffer_size later fits) in
      let told = record b { raw_data = bytes ++ drop n b.raw_data; valid_data_bytes = n } in
      let c' = on_message sort_buffers told (record c { helper = h }) in
      let some_bytes : 0 < n =
        omega (arith, is.some_payload, length-append (print_header m.header) m.payload) in
      let t =
        on_message-Takes m (drop n b.raw_data) told (record c { helper = h }) is.some_payload refl
          refl g.ordered (rw (g.queued) room) in
      (
        c',
        rw (got, receiver_round)
            (if_elim (λ r. r ≡ some (later, c')) (leb n 0)
              (λ e. absurd (ground (arith, e, some_bytes))) (λ e. refl)),
        record {
          told = t.told;
          same_size = t.same_size;
          same_decoded = t.same_decoded ∙ g.same_decoded;
          ordered = t.ordered;
          fewer = omega (arith, t.fewer, g.fewer);
          longer = omega (arith, t.longer, ap length g.queued);
          queued = t.queued ∙ ap (λ bs. map packet_data bs ++ m.payload ∷ []) g.queued;
        },
      )
