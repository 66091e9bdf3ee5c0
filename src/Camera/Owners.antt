-- ===== src/Camera/Owners.antt =====
-- The two threads of Camera/Threads.antt: whose a buffer is.
use posix_bsp_perf.Prelude.Perms.{count-append}
use posix_bsp_perf.Prelude.{
  ℕ, ◌+◌, ◌^◌, ◌≤◌, ◌<◌, ◌≡◌, ◌⊎◌, inl, inr, refl, ap, ◌∙◌, none, some, List, [], ◌∷◌, ◌++◌, ltb,
  ◌==◌, if◌then◌else◌, if_elim, length, All, arith,
}
use posix_bsp_perf.Buffers.{Buffer}
use posix_bsp_perf.Camera.{
  RtpBuffer, VideoDecHelper, free_buffer_limit, reserved_encode_pkt_num, get_rtp_video_buffer,
  packet_data, release_rtp_video_buffer, drop_oldest, send_to_decoder, take_packet, decode_packet,
}
use posix_bsp_perf.Camera.Sorted.{Ordered, Sorts, named, times}
use posix_bsp_perf.Camera.Pool.{get_rtp_video_buffer-Gets, release_rtp_video_buffer-Frees}
use posix_bsp_perf.Camera.Threads.{
  Threads, Step, get, fill, lose, send, take_one, decode_one, Reach, here, next, held, owners,
  IsSound,
}

fresh_alone :
    (i : ℕ) (s : Threads) (b : RtpBuffer) (h : VideoDecHelper)
    → times i h.encode_pkts ≡ times i s.helper.encode_pkts
    → held i s.receiver ≡ 0
    → times i h.free_buffers ≡ times i s.helper.free_buffers
    → b.id ≡ s.helper.next_id
    → h.next_id ≡ s.helper.next_id + 1
    → owners i s ≤ (if ltb i s.helper.next_id then 1 else 0)
    → owners i (record s { receiver = some b; helper = h }) ≤ (if ltb i h.next_id then 1 else 0)
fresh_alone i s b h queue idle pool new ids before =
    rw (ids, new, queue, pool) (ground (arith, idle, before))

limit_one : {m : ℕ} (i n : ℕ) → m ≤ (if ltb i n then 1 else 0) → m ≤ 1
limit_one i n h = ground (arith, h)

take_one-IsSound :
    (s : Threads) (queue : List RtpBuffer)
    → s.decoder ≡ none
    → s.helper.encode_pkts ≡ queue
    → IsSound s
    → IsSound (record s { decoder = (take_packet s.helper).0; helper = (take_packet s.helper).1 })
unfolding take_packet
take_one-IsSound s [] idle e w = rw (e) (record {
  ordered = w.ordered;
  short = w.short;
  queue_short = omega arith;
  alone = λ i. let idle' = ap (held i) idle in ground (arith, idle', w.alone i);
})
take_one-IsSound s (b ∷ bs) idle e w = rw (e) (record {
  ordered = w.ordered;
  short = w.short;
  queue_short = omega (arith, w.queue_short, ap length e);
  alone = λ i.
      let idle' = ap (held i) idle in
      let all = ap (times i) e in ground (arith, idle', all, w.alone i);
})

module _ (sort_buffers : List RtpBuffer → List RtpBuffer) (sorts : Sorts sort_buffers) where
  -- What `sendToDecoder` leaves of a queue `bs`.
  record Sends (bs : List RtpBuffer) (h h' : VideoDecHelper) : Type 0 where
    ordered : Ordered h'.free_buffers
    short : length h'.free_buffers ≤ free_buffer_limit
    queue_short : length h'.encode_pkts ≤ reserved_encode_pkt_num
    moved :
        (i : ℕ)
        → times i h'.free_buffers + times i h'.encode_pkts ≤ times i h.free_buffers + times i bs
    same_id : h'.next_id ≡ h.next_id

  drop_oldest-Sends :
      (bs : List RtpBuffer) (h : VideoDecHelper)
      → Ordered h.free_buffers
      → length h.free_buffers ≤ free_buffer_limit
      → Sends bs h (drop_oldest sort_buffers bs h)
  unfolding drop_oldest
  drop_oldest-Sends [] h o short = record {
    ordered = o;
    short = short;
    queue_short = omega arith;
    moved = λ i. omega arith;
    same_id = refl;
  }
  drop_oldest-Sends (b ∷ bs) h o short =
      let f = release_rtp_video_buffer-Frees sort_buffers sorts b h o short in
      let rest =
        drop_oldest-Sends bs (release_rtp_video_buffer sort_buffers b h) f.ordered f.short in
      if_elim (Sends (b ∷ bs) h) (ltb reserved_encode_pkt_num (length (b ∷ bs)))
        (λ e. record {
          ordered = rest.ordered;
          short = rest.short;
          queue_short = rest.queue_short;
          moved = λ i. omega (arith, rest.moved i, f.moved i);
          same_id = rest.same_id ∙ f.same_id;
        })
        (λ e. record {
          ordered = o;
          short = short;
          queue_short = ground (arith, e);
          moved = λ i. omega arith;
          same_id = refl;
        })

  Step-IsSound : (s t : Threads) → Step sort_buffers s t → IsSound s → IsSound t
  unfolding send_to_decoder take_packet decode_packet
  Step-IsSound s t (get stale min_size idle small e) w =
      let (b, h) = get_rtp_video_buffer stale min_size s.helper in
      let g = get_rtp_video_buffer-Gets stale min_size s.helper w.ordered small in
      rw (e) (record {
        ordered = g.ordered;
        short = omega (arith, g.fewer, w.short);
        queue_short = rw (g.queued) w.queue_short;
        alone = λ i.
            let queue = ap (times i) g.queued in
            let idle' : held i s.receiver ≡ 0 = ap (held i) idle in
            elim (g.moved i) [
              | inl (same, ids) ↦ rw (ids) (ground (arith, same, queue, idle', w.alone i))
              | inr (same, new, ids) ↦
                  fresh_alone i s b h queue idle' (ap (times i) same) new ids (w.alone i)
            ];
      })
  Step-IsSound s t (fill b c has same size e) w = rw (e) (record {
    ordered = w.ordered;
    short = w.short;
    queue_short = w.queue_short;
    alone = λ i. let had = ap (held i) has in ground (arith, same, had, w.alone i);
  })
  Step-IsSound s t (lose e) w = rw (e) (record {
    ordered = w.ordered;
    short = w.short;
    queue_short = w.queue_short;
    alone = λ i. ground (arith, w.alone i);
  })
  Step-IsSound s t (send b has e) w =
      let d = drop_oldest-Sends (s.helper.encode_pkts ++ b ∷ []) s.helper w.ordered w.short in
      rw (e) (record {
        ordered = d.ordered;
        short = d.short;
        queue_short = d.queue_short;
        alone = λ i.
            let had = ap (held i) has in
            let queue = count-append (λ c. c.id == i) s.helper.encode_pkts (b ∷ []) in
            rw (d.same_id) (ground (arith, had, queue, d.moved i, w.alone i));
      })
  Step-IsSound s t (take_one idle e) w =
      rw (e) (take_one-IsSound s s.helper.encode_pkts idle refl w)
  Step-IsSound s t (decode_one b has e) w =
      let h = record s.helper { decoded = s.helper.decoded ++ packet_data b ∷ [] } in
      let f = release_rtp_video_buffer-Frees sort_buffers sorts b h w.ordered w.short in
      rw (e) (record {
        ordered = f.ordered;
        short = f.short;
        queue_short = rw (f.queued) w.queue_short;
        alone = λ i.
            let had = ap (held i) has in
            let queue = ap (times i) f.queued in
            rw (f.same_id) (ground (arith, had, queue, f.moved i, w.alone i));
      })

  Reach-IsSound : (s : Threads) → Reach sort_buffers s → IsSound s
  Reach-IsSound s here = record {
    ordered = tt;
    short = omega arith;
    queue_short = omega arith;
    alone = λ i. ground arith;
  }
  Reach-IsSound t (next {s} r st) = Step-IsSound s t st (Reach-IsSound s r)

  -- If the sort permutes and orders, and buffers of less than 2^63 bytes are asked for: however the two
  -- threads take turns from the start, the buffer that the receiver fills is not the one that the decoder
  -- reads, and is neither queued nor in the pool; and what the decoder reads is neither, too.
  pub Reach-owners :
      (s : Threads) (b : RtpBuffer)
      → Reach sort_buffers s
      → (s.receiver ≡ some b
          → (times b.id s.helper.free_buffers ≡ 0)
            × (times b.id s.helper.encode_pkts ≡ 0)
            × (held b.id s.decoder ≡ 0))
        × (s.decoder ≡ some b
            → (times b.id s.helper.free_buffers ≡ 0)
              × (times b.id s.helper.encode_pkts ≡ 0)
              × (held b.id s.receiver ≡ 0))
  Reach-owners s b r =
      let w = Reach-IsSound s r in
      let most = limit_one b.id s.helper.next_id (w.alone b.id) in
      let self : named b.id b ≡ 1 = ground arith in
      (
        λ e.
            let one = ap (held b.id) e in
            (
              omega (arith, one, self, most),
              omega (arith, one, self, most),
              omega (arith, one, self, most),
            ),
        λ e.
            let one = ap (held b.id) e in
            (
              omega (arith, one, self, most),
              omega (arith, one, self, most),
              omega (arith, one, self, most),
            ),
      )

  -- If the sort permutes and orders: however the two threads take turns from the start, a call for a
  -- buffer below 2^63 bytes gets one of that size at least, a new one only if every buffer of the pool is
  -- too small, and the pool and the queue of packets hold at most 30 each.
  pub Reach-get_rtp_video_buffer :
      (s : Threads) (stale : Buffer) (min_size : ℕ)
      → Reach sort_buffers s
      → min_size < 2 ^ 63
      → (min_size ≤ (get_rtp_video_buffer stale min_size s.helper).0.buffer_size)
        × (((get_rtp_video_buffer stale min_size s.helper).1.next_id ≡ s.helper.next_id)
            ⊎ All (λ x. x.buffer_size < min_size) s.helper.free_buffers)
        × (length s.helper.free_buffers ≤ free_buffer_limit)
        × (length s.helper.encode_pkts ≤ reserved_encode_pkt_num)
  Reach-get_rtp_video_buffer s stale min_size r small =
      let w = Reach-IsSound s r in
      let g = get_rtp_video_buffer-Gets stale min_size s.helper w.ordered small in
      (g.large, g.thrifty, w.short, w.queue_short)
