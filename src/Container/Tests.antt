-- ===== src/Container/Tests.antt =====
-- Runs of the muxer on small packets.
use posix_bsp_perf.Prelude.{
  ℕ, ◌≡◌, refl, true, false, some, none, List, [], ◌∷◌, map, lookup, replicate, length-replicate,
  arith, ◌<◌, ◌==◌, if_elim, length, Bool, ◌+◌, Option,
}
use posix_bsp_perf.Buffers.{Buffer}
use posix_bsp_perf.Container.{
  StreamPacket, Muxer, Outcome, at_least, count_of, read_stream_packet, write_stream_packet,
}
use posix_bsp_perf.Container.Calls.{Call, passed, write_calls, write_calls-passed}
use posix_bsp_perf.Container.Stamps.{IsStamped, write_stream_packet-IsStamped}

abbrev zeros : ℕ → Buffer
zeros n = replicate n 0

abbrev ticks : ℕ → ℕ
ticks i = 512

abbrev muxer : Muxer
muxer = record {
  ts_recreate = true;
  header_written = false;
  packet = none;
  stream_frames_count = (0, 0) ∷ [];
  written = [];
}

-- Three useful bytes of five.
abbrev packet : StreamPacket
packet = record {
  stream_index = 0;
  pts = 0;
  dts = 0;
  pos = 0;
  duration = 0;
  pkt_data = 1 ∷ 2 ∷ 3 ∷ 9 ∷ 9 ∷ [];
  useful_pkt_size = 3;
}

abbrev fine : Outcome
fine = record { memory = true; opened = true; header = true; frame = true }

abbrev refused : Outcome
refused = record fine { frame = false }

abbrev calls : List Call
calls =
    record { outcome = fine; packet = packet } ∷ record { outcome = refused; packet = packet } ∷ []

few_frames : (i : ℕ) → count_of zeros ticks i muxer.stream_frames_count + length calls < 2147483648
unfolding lookup
few_frames i =
    if_elim (λ (o : Option ℕ). (elim o as (λ x. ℕ) [ none ↦ 0 | some n ↦ n ]) + 2 < 2147483648)
      (0 == i) (λ e. omega arith) (λ e. omega arith)

write_calls-passed_example :
    (m' : Muxer) × (write_calls zeros ticks (λ n. length-replicate n 0) calls muxer ≡ some m')
    × (map (λ w. w.bytes) m'.written ≡ passed false calls)
write_calls-passed_example =
    write_calls-passed zeros ticks (λ n. length-replicate n 0) calls muxer
      ((omega arith, refl), ((omega arith, refl), tt)) tt few_frames

write_stream_packet-IsStamped_example :
    (r : Bool × Muxer) × (write_stream_packet zeros ticks fine packet muxer ≡ some r)
    × IsStamped zeros ticks r.1
unfolding lookup
write_stream_packet-IsStamped_example =
    write_stream_packet-IsStamped zeros ticks fine packet muxer 0 refl (omega arith) refl refl
      (omega arith) (omega arith) (omega arith) (record { rising = tt; before = tt; spaced = tt })

-- A packet that is shorter than the one before.
shorter_packet :
    (read_stream_packet
      (record { stream_index = 1; pts = 5; dts = 4; pos = 0; duration = 1; bytes = 7 ∷ 8 ∷ [] })
      packet).pkt_data
    ≡ 7 ∷ 8 ∷ 3 ∷ 9 ∷ 9 ∷ []
unfolding read_stream_packet at_least
shorter_packet = refl
