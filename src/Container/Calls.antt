-- ===== src/Container/Calls.antt =====
-- FFmpegMuxer.cpp: the packets that a muxer has passed on after a number of calls.
use mathlib.Core.List.{map-append}
use posix_bsp_perf.Prelude.{
  ◌+◌, ℕ, ◌-◌, ◌≤◌, ◌≡◌, refl, sym, ap, ◌∙◌, Bool, true, false, ◌&&◌, ◌||◌, Option, none, some,
  List, [], ◌∷◌, ◌++◌, append-nil, append_assoc, map, ltb, if◌then◌else◌, if_elim, Bool-cases, inl,
  inr, length, length-append, take, drop, drop_all, All, OnSome, arith, ◌<◌, ◌==◌, lookup,
  lookup-insert,
}
use posix_bsp_perf.Buffers.{Buffer}
use posix_bsp_perf.Container.{
  StreamPacket, Muxer, Outcome, packet_for, count_of, frame_for, passed_on, write_frame,
  write_stream_packet,
}

-- A call, and how FFmpeg takes it.
pub record Call : Type 0 where
  pub outcome : Outcome
  pub packet : StreamPacket

abbrev payload : StreamPacket → Buffer
payload p = take p.useful_pkt_size p.pkt_data

-- What goes through: the bytes of each packet whose frame is taken, once the header has been written.
pub passed : Bool → List Call → List Buffer
passed header [] = []
passed header (c ∷ cs) =
    let now = header || c.outcome.opened && c.outcome.header in
    let later = passed now cs in if now && c.outcome.frame then payload c.packet ∷ later else later

abbrev bytes_of : Muxer → List Buffer
bytes_of m = map (λ w. w.bytes) m.written

if_append :
    (b : Bool) (x : Buffer) (xs : List Buffer)
    → (if b then x ∷ [] else []) ++ xs ≡ (if b then x ∷ xs else xs)
if_append true x xs = refl
if_append false x xs = refl

pick_true {ℓ} : {A : Type ℓ} (b : Bool) {x : A} (y : A) → b ≡ true → (if b then x else y) ≡ x
pick_true true y e = refl
pick_true false y e = absurd cc

pick_false {ℓ} : {A : Type ℓ} (b : Bool) (x : A) {y : A} → b ≡ false → (if b then x else y) ≡ y
pick_false true x e = absurd cc
pick_false false x e = refl

-- The count of a stream in the table, or 0.
abbrev count_in : Option ℕ → ℕ
count_in none = 0
count_in (some n) = n

module _ (stale : ℕ → Buffer) (duration : ℕ → ℕ) (stale_long : (n : ℕ) → length (stale n) ≡ n) where
  length-packet_for :
      (n : ℕ) (o : Option Buffer)
      → OnSome (λ b. length b ≡ 0) o
      → length (packet_for stale duration n o) ≡ n
  unfolding packet_for
  length-packet_for n none blank = stale_long n
  length-packet_for n (some b) blank =
      let long = length-append b (stale (n - length b)) in
      let made = stale_long (n - length b) in
      if_elim (λ r. length r ≡ n) (ltb (length b) n) {x = b ++ stale (n - length b)}
        (λ e. omega (arith, long, made, blank)) (λ e. ground (arith, e, blank))

  abbrev IsBlank : Muxer → Type 0
  IsBlank m = OnSome (λ b. length b ≡ 0) m.packet

  abbrev Fits : StreamPacket → Type 0
  Fits p = p.useful_pkt_size ≤ length p.pkt_data

  abbrev Room : ℕ → Muxer → Type 0
  Room n m = (i : ℕ) → count_of stale duration i m.stream_frames_count + n < 2147483648

  passed_on-count_of :
      (p : StreamPacket) (m : Muxer) (i : ℕ)
      → count_of stale duration i (passed_on stale duration p m).stream_frames_count
        ≤ count_of stale duration i m.stream_frames_count + 1
  passed_on-count_of p m i =
      let j = p.stream_index in
      let old = count_of stale duration j m.stream_frames_count in
      let got = lookup-insert j i (old + 1) m.stream_frames_count in
      elim (Bool-cases (j == i)) [
        | inl same ↦
            let q : j ≡ i = ground (arith, same) in
            let now : count_of stale duration i (passed_on stale duration p m).stream_frames_count
                ≡ old + 1 =
              ap count_in (
                got
                ∙ ap (λ b. if b then some (old + 1) else lookup i m.stream_frames_count) same) in
            omega (arith, now, ap (λ k. count_of stale duration k m.stream_frames_count) q)
        | inr other ↦
            let now : count_of stale duration i (passed_on stale duration p m).stream_frames_count
                ≡ count_of stale duration i m.stream_frames_count =
              ap count_in (
                got
                ∙ ap (λ b. if b then some (old + 1) else lookup i m.stream_frames_count) other) in
            omega (arith, now)
      ]

  -- What a call leaves, when `now` tells that the header has been written and `taken` that the frame has.
  record Leaves (now taken : Bool) (p : StreamPacket) (m m' : Muxer) : Type 0 where
    blank : IsBlank m'
    header : m'.header_written ≡ now
    counts :
        (i : ℕ)
        → count_of stale duration i m'.stream_frames_count
          ≤ count_of stale duration i m.stream_frames_count + 1
    bytes : bytes_of m' ≡ bytes_of m ++ (if taken then payload p ∷ [] else [])

  relabel :
      {a b t u : Bool} {p : StreamPacket} {m m' : Muxer}
      → a ≡ b
      → t ≡ u
      → Leaves a t p m m'
      → Leaves b u p m m'
  relabel {p} {m} e f l = record {
    blank = l.blank;
    header = l.header ∙ e;
    counts = l.counts;
    bytes = l.bytes ∙ ap (λ k. bytes_of m ++ (if k then payload p ∷ [] else [])) f;
  }

  write_frame-Leaves :
      (memory frame : Bool) (p : StreamPacket) (m : Muxer)
      → Fits p
      → memory ≡ true
      → IsBlank m
      → Room 1 m
      → (ok : Bool) × (m' : Muxer) × (write_frame stale duration memory frame p m ≡ some (ok, m'))
        × Leaves m.header_written frame p m m'
  unfolding write_frame frame_for
  write_frame-Leaves memory false p m fits held blank room =
      let enough : ltb (length p.pkt_data) p.useful_pkt_size ≡ false = ground (arith, fits) in
      (
        false,
        record m { packet = some [] },
        rw (enough, held, write_frame) refl,
        record {
          blank = refl;
          header = refl;
          counts = λ i. omega arith;
          bytes = sym (append-nil (bytes_of m));
        },
      )
  write_frame-Leaves memory true p m fits held blank room =
      let n = p.useful_pkt_size in
      let enough : ltb (length p.pkt_data) n ≡ false = ground (arith, fits) in
      let below : ltb (count_of stale duration p.stream_index m.stream_frames_count + 1) 2147483648
          ≡ true =
        ground (arith, room p.stream_index) in
      let none_left : drop n (packet_for stale duration n m.packet) ≡ [] =
        drop_all (packet_for stale duration n m.packet) n
          (omega (arith, length-packet_for n m.packet blank)) in
      let whole : payload p ++ drop n (packet_for stale duration n m.packet) ≡ payload p =
        ap (λ t. payload p ++ t) none_left ∙ append-nil (payload p) in
      (
        true,
        passed_on stale duration p m,
        rw (enough, held, below, write_frame) refl,
        record {
          blank = refl;
          header = refl;
          counts = passed_on-count_of p m;
          bytes =
              map-append (λ w. w.bytes) m.written (frame_for stale duration p m ∷ [])
              ∙ ap (λ b. bytes_of m ++ b ∷ []) whole;
        },
      )

  write_stream_packet-Leaves :
      (o : Outcome) (p : StreamPacket) (m : Muxer)
      → Fits p
      → o.memory ≡ true
      → IsBlank m
      → Room 1 m
      → (ok : Bool) × (m' : Muxer) × (write_stream_packet stale duration o p m ≡ some (ok, m'))
        × Leaves
            (m.header_written || o.opened && o.header)
            ((m.header_written || o.opened && o.header) && o.frame)
            p
            m
            m'
  unfolding write_stream_packet
  write_stream_packet-Leaves o p m fits held blank room =
      let begun = o.opened && o.header in
      let start : Option (Bool × Muxer) =
        if begun
        then write_frame stale duration o.memory o.frame p (record m { header_written = true })
        else some (false, m) in
      elim (Bool-cases m.header_written) [
        | inl written ↦
            let on : true ≡ m.header_written || begun = ap (λ h. h || begun) (sym written) in
            let (ok, m', ran, l) = write_frame-Leaves o.memory o.frame p m fits held blank room in
            (
              ok,
              m',
              pick_true m.header_written start written ∙ ran,
              relabel (written ∙ on) (ap (λ h. h && o.frame) on) l,
            )
        | inr fresh ↦ elim (Bool-cases begun) [
          | inl good ↦
              let on : true ≡ m.header_written || begun =
                sym good ∙ ap (λ h. h || begun) (sym fresh) in
              let m1 = record m { header_written = true } in
              let (ok, m', ran, l) =
                write_frame-Leaves o.memory o.frame p m1 fits held blank room in
              let l1 : Leaves true o.frame p m m' = record {
                blank = l.blank;
                header = l.header;
                counts = l.counts;
                bytes = l.bytes;
              } in
              (
                ok,
                m',
                pick_false m.header_written (write_frame stale duration o.memory o.frame p m) fresh
                    ∙ pick_true begun (some (false, m)) good
                    ∙ ran,
                relabel on (ap (λ h. h && o.frame) on) l1,
              )
          | inr bad ↦
              let off : false ≡ m.header_written || begun =
                sym bad ∙ ap (λ h. h || begun) (sym fresh) in
              let l0 : Leaves m.header_written false p m m = record {
                blank = blank;
                header = refl;
                counts = λ i. omega arith;
                bytes = sym (append-nil (bytes_of m));
              } in
              (
                false,
                m,
                pick_false m.header_written (write_frame stale duration o.memory o.frame p m) fresh
                    ∙ pick_false begun
                        (write_frame stale duration o.memory o.frame p
                          (record m { header_written = true }))
                        bad,
                relabel (fresh ∙ off) (ap (λ h. h && o.frame) off) l0,
              )
        ]
      ]

  unfoldable pub write_calls : List Call → Muxer → Option Muxer
  unfolding write_stream_packet
  write_calls [] m = some m
  write_calls (c ∷ cs) m = elim (write_stream_packet stale duration c.outcome c.packet m) [
    | none ↦ none
    | some (ok, m') ↦ write_calls cs m'
  ]

  -- Whatever calls that open the file, write the header or write a frame fail: from a muxer without a packet
  -- or with a blank one, with packets that hold as many bytes as they say, when FFmpeg gets the memory
  -- for them, and when no count of frames can reach 2^31, no call faults, and the bytes that have been passed on are those
  -- of the packets whose frames were taken once the header had been written, in order, each whole.
  pub write_calls-passed :
      (calls : List Call) (m : Muxer)
      → All (λ c. Fits c.packet × (c.outcome.memory ≡ true)) calls
      → IsBlank m
      → Room (length calls) m
      → (m' : Muxer) × (write_calls calls m ≡ some m')
        × (bytes_of m' ≡ bytes_of m ++ passed m.header_written calls)
  unfolding write_calls passed
  write_calls-passed [] m all blank room = (m, refl, sym (append-nil (bytes_of m)))
  write_calls-passed (c ∷ cs) m ((fits, held), all) blank room =
      let now = m.header_written || c.outcome.opened && c.outcome.header in
      let (ok, m1, ran, l) =
        write_stream_packet-Leaves c.outcome c.packet m fits held blank
          (λ i. omega (arith, room i)) in
      let (m', later, same) =
        write_calls-passed cs m1 all l.blank (λ i. omega (arith, room i, l.counts i)) in
      let rest = passed now cs in
      let joined = ap (λ h. passed h cs) l.header in
      (
        m',
        rw (ran, write_calls) later,
        same
            ∙ ap (λ b. bytes_of m1 ++ b) joined
            ∙ ap (λ b. b ++ rest) l.bytes
            ∙ append_assoc (bytes_of m)
                (if now && c.outcome.frame then payload c.packet ∷ [] else []) rest
            ∙ ap (λ b. bytes_of m ++ b)
                (if_append (now && c.outcome.frame) (payload c.packet) rest),
      )
