-- ===== src/Container/Stamps.antt =====
-- FFmpegMuxer.cpp: the time stamps that recreatePTS and recreateDTS make.
use native.Mathlib.Nat.{suc-mul}
use posix_bsp_perf.Prelude.{
  ℕ, suc, ◌+◌, ◌-◌, ◌*◌, ◌^◌, ◌≤◌, ◌<◌, ◌≡◌, refl, sym, ap, ◌∙◌, subst, Bool, true, false, ◌&&◌,
  Option, none, some, List, [], ◌∷◌, ◌++◌, Map, lookup, insert, lookup-insert, ◌==◌, ltb,
  if◌then◌else◌, if_elim, Bool-cases, ==-refl, inl, inr, length, All, All-append, All-map, arith,
  not,
}
use posix_bsp_perf.Buffers.{Buffer}
use posix_bsp_perf.Container.{
  StreamPacket, Written, Muxer, Outcome, recreate_pts, recreate_dts, count_of, frame_for, passed_on,
  write_frame, write_stream_packet,
}

-- The stamps of a stream rise.
abbrev pub Rising : List Written → Type 0
Rising [] = Unit
Rising (w ∷ ws) = All (λ x. w.stream_index ≡ x.stream_index → w.pts < x.pts) ws × Rising ws

Rising-append :
    (ws : List Written) (x : Written)
    → Rising ws
    → All (λ w. w.stream_index ≡ x.stream_index → w.pts < x.pts) ws
    → Rising (ws ++ x ∷ [])
Rising-append [] x r all = (tt, tt)
Rising-append (w ∷ ws) x (first, r) (last, all) = (
  All-append (λ y. w.stream_index ≡ y.stream_index → w.pts < y.pts) ws (x ∷ []) first (last, tt),
  Rising-append ws x r all,
)

abbrev count_in : Option ℕ → ℕ
count_in none = 0
count_in (some n) = n

module _ (stale : ℕ → Buffer) (duration : ℕ → ℕ) where
  -- Where the next stamp of a stream is.
  abbrev pub next_stamp : ℕ → Map ℕ → ℕ
  next_stamp i counts = 2 ^ 63 + count_of stale duration i counts * duration i

  -- Stamps rise, the next one is behind them all, and each frame is decoded one duration before it is due.
  pub record IsStamped (m : Muxer) : Type 0 where
    pub rising : Rising m.written
    pub before : All (λ w. w.pts < next_stamp w.stream_index m.stream_frames_count) m.written
    pub spaced : All (λ w. w.dts + duration w.stream_index ≡ w.pts) m.written

  -- The stamp for what the table says of a stream.
  abbrev stamp_of : ℕ → Option ℕ → ℕ
  stamp_of i o = 2 ^ 63 + (elim o as (λ x. ℕ) [ none ↦ 0 | some n ↦ n ]) * duration i

  module _ (i n : ℕ) (counts : Map ℕ) (has : lookup i counts ≡ some n) where
    next_stamp-here : next_stamp i (insert i (n + 1) counts) ≡ next_stamp i counts + duration i
    next_stamp-here =
        let one : n + 1 ≡ suc n = omega arith in
        let more : (n + 1) * duration i ≡ n * duration i + duration i =
          ap (λ k. k * duration i) one ∙ suc-mul n (duration i) in
        let found : lookup i (insert i (n + 1) counts) ≡ some (n + 1) =
          lookup-insert i i (n + 1) counts
          ∙ ap (λ b. if b then some (n + 1) else lookup i counts) (==-refl i) in
        let p : next_stamp i (insert i (n + 1) counts) ≡ 2 ^ 63 + (n + 1) * duration i =
          ap (stamp_of i) found in
        let q : next_stamp i counts ≡ 2 ^ 63 + n * duration i = ap (stamp_of i) has in
        omega (arith, p, q, more)

    next_stamp-le : (j : ℕ) → next_stamp j counts ≤ next_stamp j (insert i (n + 1) counts)
    next_stamp-le j = elim (Bool-cases (i == j)) [
      | inl same ↦
          let at : i ≡ j = ground (arith, same) in
          subst (λ k. next_stamp k counts ≤ next_stamp k (insert i (n + 1) counts)) at
            (omega (arith, next_stamp-here))
      | inr other ↦
          let found : lookup j (insert i (n + 1) counts) ≡ lookup j counts =
            lookup-insert i j (n + 1) counts
            ∙ ap (λ b. if b then some (n + 1) else lookup j counts) other in
          let q : next_stamp j (insert i (n + 1) counts) ≡ next_stamp j counts =
            ap (stamp_of j) found in
          omega (arith, q)
    ]

  passed_on-IsStamped :
      (p : StreamPacket) (m : Muxer) (n : ℕ)
      → m.ts_recreate ≡ true
      → lookup p.stream_index m.stream_frames_count ≡ some n
      → 0 < duration p.stream_index
      → (n + 1) * duration p.stream_index < 2 ^ 63
      → IsStamped m
      → IsStamped (passed_on stale duration p m)
  unfolding frame_for recreate_pts recreate_dts
  passed_on-IsStamped p m n made has some_ticks fits w =
      let i = p.stream_index in
      let one : n + 1 ≡ suc n = omega arith in
      let few : duration i < 2 ^ 63 =
        omega (arith, fits, ap (λ k. k * duration i) one ∙ suc-mul n (duration i)) in
      let counts = m.stream_frames_count in
      let x = frame_for stale duration p m in
      let at_next : next_stamp i counts ≡ 2 ^ 63 + n * duration i = ap (stamp_of i) has in
      let pts : x.pts ≡ 2 ^ 63 + n * duration i = rw (made) (rw (has, recreate_pts) refl) in
      let dts : x.dts ≡ 2 ^ 63 + n * duration i - duration i =
        rw (made) (rw (has, recreate_dts) refl) in
      let counts' : insert i (count_of stale duration i counts + 1) counts
          ≡ insert i (n + 1) counts =
        ap (λ (o : Option ℕ). insert i ((elim o as (λ x. ℕ) [ none ↦ 0 | some k ↦ k ]) + 1) counts)
          has in
      let here = next_stamp-here i n counts has in
      let grown = next_stamp-le i n counts has in
      let later : All (λ w. w.pts < next_stamp w.stream_index (insert i (n + 1) counts))
          (m.written ++ x ∷ []) =
        All-append (λ w. w.pts < next_stamp w.stream_index (insert i (n + 1) counts)) m.written
          (x ∷ [])
          (All-map (λ w. w.pts < next_stamp w.stream_index counts)
            (λ w. w.pts < next_stamp w.stream_index (insert i (n + 1) counts)) m.written
            (λ v h. omega (arith, h, grown v.stream_index)) w.before)
          (omega (arith, pts, here, at_next, some_ticks), tt) in
      record {
        rising = Rising-append m.written x w.rising (
            All-map (λ w. w.pts < next_stamp w.stream_index counts)
              (λ w. w.stream_index ≡ i → w.pts < x.pts) m.written
              (λ v h same.
                let next = ap (λ k. next_stamp k counts) same in
                omega (arith, h, next, at_next, pts))
              w.before);
        before =
            subst (λ c. All (λ w. w.pts < next_stamp w.stream_index c) (m.written ++ x ∷ []))
              (sym counts') later;
        spaced =
            All-append (λ w. w.dts + duration w.stream_index ≡ w.pts) m.written (x ∷ []) w.spaced
              (omega (arith, pts, dts, few), tt);
      }

  -- The call does not fault, and the muxer that it leaves is stamped.
  abbrev Keeps : Option (Bool × Muxer) → Type 0
  Keeps o = (r : Bool × Muxer) × (o ≡ some r) × IsStamped r.1

  write_frame-Keeps :
      (memory frame : Bool) (p : StreamPacket) (m : Muxer)
      → p.useful_pkt_size ≤ length p.pkt_data
      → memory ≡ true
      → count_of stale duration p.stream_index m.stream_frames_count + 1 < 2147483648
      → IsStamped m
      → IsStamped (passed_on stale duration p m)
      → Keeps (write_frame stale duration memory frame p m)
  unfolding write_frame
  write_frame-Keeps memory frame p m fits held room w next =
      let count = count_of stale duration p.stream_index m.stream_frames_count in
      let enough : ltb (length p.pkt_data) p.useful_pkt_size ≡ false = ground (arith, fits) in
      let below : ltb (count + 1) 2147483648 ≡ true = ground (arith, room) in
      let blank : IsStamped (record m { packet = some [] }) = record {
        rising = w.rising;
        before = w.before;
        spaced = w.spaced;
      } in
      rw (enough, held, write_frame)
        (if_elim Keeps (not frame) (λ k. ((false, record m { packet = some [] }), refl, blank))
          (λ k. rw (below) ((true, passed_on stale duration p m), refl, next)))

  -- With time stamps that are made anew, for a packet that holds as many bytes as it says, of a stream that
  -- has been added and whose frames last some ticks, when FFmpeg gets the memory for it, the count of
  -- the stream stays below 2^31 and the stamp after the packet's below 2^63: whichever of the other calls
  -- of FFmpeg fail, the call does not fault, and it keeps it that the stamps of each stream rise strictly,
  -- and that each frame is to be decoded one duration before it is shown.
  pub write_stream_packet-IsStamped :
      (o : Outcome) (p : StreamPacket) (m : Muxer) (n : ℕ)
      → m.ts_recreate ≡ true
      → p.useful_pkt_size ≤ length p.pkt_data
      → o.memory ≡ true
      → lookup p.stream_index m.stream_frames_count ≡ some n
      → n + 1 < 2147483648
      → 0 < duration p.stream_index
      → (n + 1) * duration p.stream_index < 2 ^ 63
      → IsStamped m
      → (r : Bool × Muxer) × (write_stream_packet stale duration o p m ≡ some r) × IsStamped r.1
  unfolding write_stream_packet
  write_stream_packet-IsStamped o p m n made fits held has few some_ticks low w =
      let with_header : Muxer = record m { header_written = true } in
      let w1 : IsStamped with_header = record {
        rising = w.rising;
        before = w.before;
        spaced = w.spaced;
      } in
      let next = passed_on-IsStamped p m n made has some_ticks low w in
      let next1 = passed_on-IsStamped p with_header n made has some_ticks low w1 in
      let count : count_of stale duration p.stream_index m.stream_frames_count ≡ n =
        ap count_in has in
      let room : count_of stale duration p.stream_index m.stream_frames_count + 1 < 2147483648 =
        omega (arith, count, few) in
      if_elim Keeps m.header_written
        (λ e. write_frame-Keeps o.memory o.frame p m fits held room w next)
        (λ e.
          if_elim Keeps (o.opened && o.header) {y = some (false, m)}
            (λ k. write_frame-Keeps o.memory o.frame p with_header fits held room w1 next1)
            (λ k. ((false, m), refl, w)))
