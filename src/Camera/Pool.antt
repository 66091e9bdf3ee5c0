-- ===== src/Camera/Pool.antt =====
-- VideoDecHelper::getRtpVideoBuffer and releaseRtpVideoBuffer: the pool of buffers.
use posix_bsp_perf.Prelude.Perms.{Perm-count, Perm-length, count-append}
use posix_bsp_perf.Prelude.{
  ℕ, ◌+◌, ◌^◌, ◌≤◌, ◌<◌, ◌≡◌, ◌⊎◌, inl, inr, refl, sym, subst, none, List, [], ◌∷◌, ◌++◌, ltb, leb,
  ◌==◌, if_elim, Option-cases, length, length-drop_last, All, All-map, arith,
}
use posix_bsp_perf.Buffers.{Buffer}
use posix_bsp_perf.Camera.{
  RtpBuffer, VideoDecHelper, free_buffer_limit, create_new_rtp_buffer, last, cleared,
  get_rtp_video_buffer, trim, release_rtp_video_buffer,
}
use posix_bsp_perf.Camera.Sorted.{
  Ordered, Sorts, last-Ordered, Ordered-drop_last, named, times, times-last, length-trim,
  times-trim,
}

-- What a call of `getRtpVideoBuffer` leaves: the buffer is fresh from the pool's end, or new.
pub record Gets (min_size : ℕ) (h : VideoDecHelper) (b : RtpBuffer) (h' : VideoDecHelper)
    : Type 0 where
  pub large : min_size ≤ b.buffer_size
  pub empty : b.valid_data_bytes ≡ 0
  pub queued : h'.encode_pkts ≡ h.encode_pkts
  pub same_decoded : h'.decoded ≡ h.decoded
  pub ordered : Ordered h'.free_buffers
  pub fewer : length h'.free_buffers ≤ length h.free_buffers
  pub moved :
      (i : ℕ)
      → (times i h'.free_buffers + named i b ≡ times i h.free_buffers × h'.next_id ≡ h.next_id)
        ⊎ (h'.free_buffers ≡ h.free_buffers × b.id ≡ h.next_id × h'.next_id ≡ h.next_id + 1)
  pub thrifty : (h'.next_id ≡ h.next_id) ⊎ All (λ x. x.buffer_size < min_size) h.free_buffers

abbrev pub Got : ℕ → VideoDecHelper → RtpBuffer × VideoDecHelper → Type 0
Got min_size h r = Gets min_size h r.0 r.1

create-Gets :
    (stale : Buffer) (min_size : ℕ) (h : VideoDecHelper)
    → Ordered h.free_buffers
    → min_size < 2 ^ 63
    → All (λ x. x.buffer_size < min_size) h.free_buffers
    → Got min_size h (create_new_rtp_buffer stale min_size h)
unfolding create_new_rtp_buffer
create-Gets stale min_size h o small none_fits = record {
  large = omega arith;
  empty = refl;
  queued = refl;
  same_decoded = refl;
  ordered = o;
  fewer = omega arith;
  moved = λ i. inr (refl, refl, refl);
  thrifty = inr none_fits;
}

no_last : (bs : List RtpBuffer) → last bs ≡ none → bs ≡ []
no_last [] e = refl
no_last (b ∷ []) e = absurd (cc)
no_last (b ∷ c ∷ bs) e = let f = no_last (c ∷ bs) e in absurd (cc)

pub get_rtp_video_buffer-Gets :
    (stale : Buffer) (min_size : ℕ) (h : VideoDecHelper)
    → Ordered h.free_buffers
    → min_size < 2 ^ 63
    → Got min_size h (get_rtp_video_buffer stale min_size h)
unfolding get_rtp_video_buffer
get_rtp_video_buffer-Gets stale min_size h o small = elim (Option-cases (last h.free_buffers)) [
  | inl absent ↦
      rw (absent, get_rtp_video_buffer)
        (create-Gets stale min_size h o small (
          subst (λ bs. All (λ x. x.buffer_size < min_size) bs) (sym (no_last h.free_buffers absent))
            tt))
  | inr (b, found) ↦
      let largest = last-Ordered h.free_buffers b o found in
      rw (found, get_rtp_video_buffer)
        (if_elim (Got min_size h) (ltb b.buffer_size min_size)
          (λ e. create-Gets stale min_size h o small (
            All-map (λ x. x.buffer_size ≤ b.buffer_size) (λ x. x.buffer_size < min_size)
              h.free_buffers (λ x le. ground (arith, le, e)) largest))
          (λ e. record {
            large = ground (arith, e);
            empty = refl;
            queued = refl;
            same_decoded = refl;
            ordered = Ordered-drop_last h.free_buffers o;
            fewer = omega (arith, length-drop_last h.free_buffers);
            moved = λ i. inl (sym (times-last i h.free_buffers b found), refl);
            thrifty = inl refl;
          }))
]

-- What `releaseRtpVideoBuffer` leaves.
pub record Frees (b : RtpBuffer) (h h' : VideoDecHelper) : Type 0 where
  pub ordered : Ordered h'.free_buffers
  pub short : length h'.free_buffers ≤ free_buffer_limit
  pub moved : (i : ℕ) → times i h'.free_buffers ≤ times i h.free_buffers + named i b
  pub queued : h'.encode_pkts ≡ h.encode_pkts
  pub same_decoded : h'.decoded ≡ h.decoded
  pub same_id : h'.next_id ≡ h.next_id

module _ (sort_buffers : List RtpBuffer → List RtpBuffer) (sorts : Sorts sort_buffers) where
  pub release_rtp_video_buffer-Frees :
      (b : RtpBuffer) (h : VideoDecHelper)
      → Ordered h.free_buffers
      → length h.free_buffers ≤ free_buffer_limit
      → Frees b h (release_rtp_video_buffer sort_buffers b h)
  unfolding release_rtp_video_buffer
  release_rtp_video_buffer-Frees b h o short =
      let all = h.free_buffers ++ cleared b ∷ [] in
      let kept = trim free_buffer_limit all in
      let p = sorts.permutes kept in
      if_elim (Frees b h) (leb b.buffer_size 0)
        (λ e. record {
          ordered = o;
          short = short;
          moved = λ i. omega arith;
          queued = refl;
          same_decoded = refl;
          same_id = refl;
        })
        (λ e. record {
          ordered = sorts.orders kept;
          short = omega (arith, Perm-length p, length-trim free_buffer_limit all);
          moved = λ i. omega (
            arith,
            Perm-count (λ c. c.id == i) p,
            times-trim i free_buffer_limit all,
            count-append (λ c. c.id == i) h.free_buffers (cleared b ∷ []),
          );
          queued = refl;
          same_decoded = refl;
          same_id = refl;
        })
