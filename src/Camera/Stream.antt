-- ===== src/Camera/Stream.antt =====
-- CameraClient::runLoop and VideoDecHelper::decoderLoop, from the published messages to the decoder.
-- `Turn` says which of the two threads is to go round next.
use posix_bsp_perf.Prelude.{
  ℕ, zero, suc, ◌+◌, ◌-◌, ◌^◌, ◌≤◌, ◌<◌, ◌≡◌, refl, sym, ap, ◌∙◌, Option, none, some, List, [], ◌∷◌,
  ◌++◌, map, append-nil, append_assoc, length, All, each, arith,
}
use posix_bsp_perf.Buffers.{Buffer}
use posix_bsp_perf.Zmq.{Socket}
use posix_bsp_perf.Zmq.Parts.{publish, publish-parts}
use posix_bsp_perf.Camera.{
  RtpBuffer, VideoDecHelper, CameraClient, free_buffer_limit, reserved_encode_pkt_num, packet_data,
  take_packet, decode_packet, decoder_round, receiver_round,
}
use posix_bsp_perf.Camera.Sorted.{Ordered, Sorts}
use posix_bsp_perf.Camera.Pool.{release_rtp_video_buffer-Frees}
use posix_bsp_perf.Camera.Packets.{RtpMessage, IsPacket, receiver_round-publish}

pub data Turn : Type 0 where
  receives decodes : Turn

abbrev pub receptions : List Turn → ℕ
receptions [] = 0
receptions (receives ∷ ts) = suc (receptions ts)
receptions (decodes ∷ ts) = receptions ts

-- Messages one behind the other.
unfoldable pub publish_all : List RtpMessage → Socket → Socket
publish_all [] socket = socket
publish_all (m ∷ ms) socket = publish_all ms (publish m.first m.others socket)

abbrev stream : List RtpMessage → Socket
stream [] = []
stream (m ∷ ms) = publish m.first m.others [] ++ stream ms

publish_behind :
    (b : Buffer) (bs : List Buffer) (socket : Socket)
    → publish b bs socket ≡ socket ++ publish b bs []
publish_behind b bs socket =
    publish-parts b bs socket ∙ ap (λ w. socket ++ w) (sym (publish-parts b bs []))

publish_all-stream :
    (ms : List RtpMessage) (socket : Socket) → publish_all ms socket ≡ socket ++ stream ms
unfolding publish_all
publish_all-stream [] socket = sym (append-nil socket)
publish_all-stream (m ∷ ms) socket =
    publish_all-stream ms (publish m.first m.others socket)
    ∙ ap (λ w. w ++ stream ms) (publish_behind m.first m.others socket)
    ∙ append_assoc socket (publish m.first m.others []) (stream ms)

empty_queue : (bs : List RtpBuffer) → length bs ≤ 0 → bs ≡ []
empty_queue [] h = refl
empty_queue (b ∷ bs) h = absurd (omega arith)

-- What has been decoded and what is queued for it.
abbrev pub delivered : VideoDecHelper → List Buffer
delivered h = h.decoded ++ map packet_data h.encode_pkts

-- Rounds of the two threads, in the order that `turns` gives. `none` waits for a message.
unfoldable pub run_turns :
    (List RtpBuffer → List RtpBuffer)
    → Buffer
    → List Turn
    → Socket
    → CameraClient
    → Option (Socket × CameraClient)
run_turns sort_buffers stale [] socket c = some (socket, c)
run_turns sort_buffers stale (receives ∷ ts) socket c =
    elim (receiver_round sort_buffers stale socket c) [
      | none ↦ none
      | some r ↦ run_turns sort_buffers stale ts r.0 r.1
    ]
run_turns sort_buffers stale (decodes ∷ ts) socket c =
    run_turns sort_buffers stale ts socket
      (record c { helper = decoder_round sort_buffers c.helper })

module _ (sort_buffers : List RtpBuffer → List RtpBuffer) (sorts : Sorts sort_buffers) where
  -- What a round of the decoder leaves.
  record Decodes (h h' : VideoDecHelper) : Type 0 where
    same : delivered h' ≡ delivered h
    ordered : Ordered h'.free_buffers
    short : length h'.free_buffers ≤ free_buffer_limit
    shorter : length h'.encode_pkts ≡ length h.encode_pkts - 1

  decoder_round-Decodes_of :
      (queue : List RtpBuffer) (h : VideoDecHelper)
      → Ordered h.free_buffers
      → length h.free_buffers ≤ free_buffer_limit
      → Decodes
          (record h { encode_pkts = queue })
          (decoder_round sort_buffers (record h { encode_pkts = queue }))
  unfolding decoder_round take_packet decode_packet
  decoder_round-Decodes_of [] h o short = record {
    same = refl;
    ordered = o;
    short = short;
    shorter = omega arith;
  }
  decoder_round-Decodes_of (b ∷ bs) h o short =
      let given = record h { encode_pkts = bs; decoded = h.decoded ++ packet_data b ∷ [] } in
      let f = release_rtp_video_buffer-Frees sort_buffers sorts b given o short in
      record {
        same =
            rw (f.same_decoded, f.queued)
              (append_assoc h.decoded (packet_data b ∷ []) (map packet_data bs));
        ordered = f.ordered;
        short = f.short;
        shorter = omega (arith, ap length f.queued);
      }

  drain_all :
      (rounds i : ℕ) (h : VideoDecHelper)
      → Ordered h.free_buffers
      → length h.free_buffers ≤ free_buffer_limit
      → length h.encode_pkts ≤ rounds
      → (each rounds i (λ j h. decoder_round sort_buffers h) h).decoded ≡ delivered h
  unfolding each
  drain_all zero i h o short few = rw (empty_queue h.encode_pkts few) (sym (append-nil h.decoded))
  drain_all (suc rounds) i h o short few =
      let d = decoder_round-Decodes_of h.encode_pkts h o short in
      drain_all rounds (suc i) (decoder_round sort_buffers h) d.ordered d.short
        (omega (arith, d.shorter, few))
      ∙ d.same

  -- Packets that the receiver takes in rounds of its own, the decoder's rounds anywhere between them.
  run_turns-delivered :
      (stale : Buffer) (turns : List Turn) (ms : List RtpMessage) (c : CameraClient)
      → receptions turns ≡ length ms
      → All (IsPacket c.min_buffer_size) ms
      → c.min_buffer_size < 2 ^ 63
      → Ordered c.helper.free_buffers
      → length c.helper.free_buffers ≤ free_buffer_limit
      → length c.helper.encode_pkts + length ms ≤ reserved_encode_pkt_num
      → (c' : CameraClient) × (run_turns sort_buffers stale turns (stream ms) c ≡ some ([], c'))
        × Ordered c'.helper.free_buffers
        × (length c'.helper.free_buffers ≤ free_buffer_limit)
        × (length c'.helper.encode_pkts ≤ reserved_encode_pkt_num)
        × (delivered c'.helper ≡ delivered c.helper ++ map (λ m. m.payload) ms)
  unfolding run_turns
  run_turns-delivered stale [] [] c all is small o short room =
      (c, refl, o, short, omega (arith, room), sym (append-nil (delivered c.helper)))
  run_turns-delivered stale [] (m ∷ ms) c all is small o short room = absurd (omega arith)
  run_turns-delivered stale (receives ∷ ts) [] c all is small o short room = absurd (omega arith)
  run_turns-delivered stale (receives ∷ ts) (m ∷ ms) c all is small o short room =
      let (c1, ran, t) =
        receiver_round-publish sort_buffers stale m (stream ms) c is.0 small o
          (omega (arith, room)) in
      let move : delivered c1.helper ≡ delivered c.helper ++ m.payload ∷ [] =
        rw (t.same_decoded, t.queued)
          (sym (
            append_assoc c.helper.decoded (map packet_data c.helper.encode_pkts)
              (m.payload ∷ []))) in
      let (c', ran', o', short', few', same) =
        run_turns-delivered stale ts ms c1 (omega (arith, all)) (rw (t.same_size) is.1)
          (rw (t.same_size) small) t.ordered (omega (arith, t.fewer, short))
          (omega (arith, t.longer, room)) in
      (
        c',
        rw (ran, run_turns) ran',
        o',
        short',
        few',
        same
            ∙ ap (λ w. w ++ map (λ m. m.payload) ms) move
            ∙ append_assoc (delivered c.helper) (m.payload ∷ []) (map (λ m. m.payload) ms),
      )
  run_turns-delivered stale (decodes ∷ ts) ms c all is small o short room =
      let d = decoder_round-Decodes_of c.helper.encode_pkts c.helper o short in
      let (c', ran, o', short', few', same) =
        run_turns-delivered stale ts ms (record c { helper = decoder_round sort_buffers c.helper })
          all is small d.ordered d.short (omega (arith, d.shorter, room)) in
      (c', ran, o', short', few', same ∙ ap (λ w. w ++ map (λ m. m.payload) ms) d.same)

  -- Packets that were published, each of at most `min_buffer_size` bytes (below 2^63) and with a payload,
  -- and no more than the queue of packets has room for, meet a pool of at most 30 buffers in order of
  -- their sizes, with a sort that permutes and orders. Then, however as many rounds of the receiver as
  -- there are packets and any rounds of the decoder interleave, all of the messages are taken, and after
  -- 30 further rounds of the decoder their payloads have been decoded, in order and behind what was
  -- decoded and queued before.
  pub run_turns-publish_all :
      (stale : Buffer) (turns : List Turn) (ms : List RtpMessage) (c : CameraClient)
      → receptions turns ≡ length ms
      → All (IsPacket c.min_buffer_size) ms
      → c.min_buffer_size < 2 ^ 63
      → Ordered c.helper.free_buffers
      → length c.helper.free_buffers ≤ free_buffer_limit
      → length c.helper.encode_pkts + length ms ≤ reserved_encode_pkt_num
      → (c' : CameraClient) × (run_turns sort_buffers stale turns (publish_all ms []) c
          ≡ some ([], c'))
        × ((each reserved_encode_pkt_num 0 (λ i h. decoder_round sort_buffers h) c'.helper).decoded
            ≡ delivered c.helper ++ map (λ m. m.payload) ms)
  run_turns-publish_all stale turns ms c all is small o short room =
      let (c', ran, o', short', few, same) =
        run_turns-delivered stale turns ms c all is small o short room in
      (
        c',
        rw (publish_all-stream ms []) ran,
        drain_all reserved_encode_pkt_num 0 c'.helper o' short' few ∙ same,
      )
