-- ===== src/Poll/Round.antt =====
-- A round of EventLoopPoll::processEvents, whatever the callbacks do to the loop.
use posix_bsp_perf.Prelude.{
  ℕ, zero, suc, sym, true, false, ◌+◌, ◌≤◌, ◌<◌, ◌≡◌, refl, ap, subst, OnSome, ◌∙◌, Option, none,
  some, Option-cases, inl, inr, List, [], ◌∷◌, length, Bool-cases, lookup, ◌==◌, if_elim, arith,
}
use posix_bsp_perf.Registry.{Mask}
use posix_bsp_perf.Poll.{
  PollFd, Revents, IoEvent, EventLoopPoll, max_fds, entry, set_revents, call, dispatch, visit,
  for_loop, del_io_event,
}
use posix_bsp_perf.Poll.Entries.{events_of, events_of-set_revents, set_revents-Single}
use posix_bsp_perf.Poll.Synced.{Synced, del_io_event-Synced}

entry_within : (ps : List PollFd) (i : ℕ) (p : PollFd) → entry ps i ≡ some p → i < length ps
unfolding entry
entry_within [] i p e = cc
entry_within (q ∷ ps) zero p e = omega arith
entry_within (q ∷ ps) (suc i) p e = omega (arith, entry_within ps i p e)

entry_events :
    (ps : List PollFd) (i : ℕ) (p : PollFd)
    → entry ps i ≡ some p
    → (m : Mask) × (events_of p.fd ps ≡ some m)
unfolding entry events_of
entry_events [] i p e = cc
entry_events (q ∷ ps) zero p e = (q.events, ground arith)
entry_events (q ∷ ps) (suc i) p e = elim (Bool-cases (q.fd == p.fd)) [
  | inl here ↦ (q.events, rw (here) refl)
  | inr there ↦ let (m, found) = entry_events ps i p e in (m, rw (there) found)
]

-- The assertion of the loop holds: every entry of `m_fds` has its event in `m_io_events`.
pub entry-visit :
    (run : ℕ → ℕ → EventLoopPoll → Option EventLoopPoll) (loop : EventLoopPoll) (i : ℕ) (p : PollFd)
    → Synced loop
    → entry loop.fds i ≡ some p
    → (ev : IoEvent) × (lookup p.fd loop.io_events ≡ some ev)
      × (visit run p loop ≡ dispatch run p ev loop)
unfolding visit
entry-visit run loop i p s e =
    let (m, found) = entry_events loop.fds i p e in
    elim (Option-cases (lookup p.fd loop.io_events)) [
      | inl absent ↦ absurd (ground (arith, s.same p.fd, found, absent))
      | inr (ev, known) ↦ (ev, known, rw (known, visit) refl)
    ]

length-set_revents :
    (answers : ℕ → Revents) (ps : List PollFd) → length (set_revents answers ps) ≡ length ps
unfolding set_revents
length-set_revents answers [] = refl
length-set_revents answers (p ∷ ps) = ap suc (length-set_revents answers ps)

-- The answers of `poll` keep the tables in step.
pub set_revents-Synced :
    (answers : ℕ → Revents) (loop : EventLoopPoll)
    → Synced loop
    → Synced (record loop { fds = set_revents answers loop.fds })
set_revents-Synced answers loop s = record {
  same = λ g. events_of-set_revents answers g loop.fds ∙ s.same g;
  single = set_revents-Single answers loop.fds s.single;
  heard = s.heard;
  room = omega (arith, s.room, length-set_revents answers loop.fds);
}

-- Hung up, and neither readable nor writable.
pub record IsHung (p : PollFd) : Type 0 where
  pub unreadable : p.revents.readable ≡ false
  pub unwritable : p.revents.writable ≡ false
  pub hung : p.revents.hung ≡ true

module _ (run : ℕ → ℕ → EventLoopPoll → Option EventLoopPoll)
    (kept : (cb fd : ℕ) (loop : EventLoopPoll) → Synced loop → OnSome Synced (run cb fd loop)) where
  call-Synced :
      (cb : Option ℕ) (fd : ℕ) (loop : EventLoopPoll)
      → Synced loop
      → OnSome Synced (call run cb fd loop)
  call-Synced none fd loop s = tt
  call-Synced (some cb) fd loop s = kept cb fd loop s

  dispatch-Synced :
      (p : PollFd) (ev : IoEvent) (loop : EventLoopPoll)
      → Synced loop
      → OnSome Synced (dispatch run p ev loop)
  unfolding dispatch
  dispatch-Synced p ev loop s =
      if_elim (OnSome Synced) p.revents.readable (λ e. call-Synced ev.read_callback p.fd loop s)
        λ e.
          if_elim (OnSome Synced) p.revents.writable
            (λ e. call-Synced ev.write_callback p.fd loop s)
            λ e.
              if_elim (OnSome Synced) p.revents.hung (λ e. hung ev.read_callback ev.write_callback)
                (λ e. s)
    where
      hung :
          (read write : Option ℕ)
          → OnSome Synced (elim read [
            | some cb ↦ run cb p.fd loop
            | none ↦ elim write [
              | some cb ↦ run cb p.fd loop
              | none ↦ some (del_io_event p.fd loop)
            ]
          ])
      hung (some cb) write = kept cb p.fd loop s
      hung none (some cb) = kept cb p.fd loop s
      hung none none = del_io_event-Synced p.fd loop s

  visit-Synced :
      (p : PollFd) (loop : EventLoopPoll) → Synced loop → OnSome Synced (visit run p loop)
  unfolding visit
  visit-Synced p loop s = elim (Option-cases (lookup p.fd loop.io_events)) [
    | inl absent ↦ rw (absent, visit) tt
    | inr (ev, known) ↦ rw (known, visit) (dispatch-Synced p ev loop s)
  ]

  -- What the events of a descriptor `p` call for, and the loop behind it: the callback for reading if
  -- it is readable, else the one for writing if it is writable, else either if it is hung up, which
  -- deletes it when it has neither. A missing callback throws.
  pub data Served (p : PollFd) (ev : IoEvent) (loop : EventLoopPoll)
      : Option EventLoopPoll → Type 0 where
    reads :
        (cb : ℕ)
        → p.revents.readable ≡ true
        → ev.read_callback ≡ some cb
        → Served p ev loop (run cb p.fd loop)
    writes :
        (cb : ℕ)
        → p.revents.readable ≡ false
        → p.revents.writable ≡ true
        → ev.write_callback ≡ some cb
        → Served p ev loop (run cb p.fd loop)
    unreadable : p.revents.readable ≡ true → ev.read_callback ≡ none → Served p ev loop none
    unwritable :
        p.revents.readable ≡ false
        → p.revents.writable ≡ true
        → ev.write_callback ≡ none
        → Served p ev loop none
    hung_read :
        (cb : ℕ) → IsHung p → ev.read_callback ≡ some cb → Served p ev loop (run cb p.fd loop)
    hung_write :
        (cb : ℕ)
        → IsHung p
        → ev.read_callback ≡ none
        → ev.write_callback ≡ some cb
        → Served p ev loop (run cb p.fd loop)
    closed :
        IsHung p
        → ev.read_callback ≡ none
        → ev.write_callback ≡ none
        → Served p ev loop (some (del_io_event p.fd loop))
    quiet :
        p.revents.readable ≡ false
        → p.revents.writable ≡ false
        → p.revents.hung ≡ false
        → Served p ev loop (some loop)

  dispatch-Served :
      (p : PollFd) (ev : IoEvent) (loop : EventLoopPoll) → Served p ev loop (dispatch run p ev loop)
  unfolding dispatch
  dispatch-Served p ev loop =
      if_elim (Served p ev loop) p.revents.readable
        (λ e. elim (Option-cases ev.read_callback) [
          | inl null ↦
              subst (λ c. Served p ev loop (call run c p.fd loop)) (sym null) (unreadable e null)
          | inr (cb, has) ↦
              subst (λ c. Served p ev loop (call run c p.fd loop)) (sym has) (reads cb e has)
        ])
        λ e.
          if_elim (Served p ev loop) p.revents.writable
            (λ e'. elim (Option-cases ev.write_callback) [
              | inl null ↦
                  subst (λ c. Served p ev loop (call run c p.fd loop)) (sym null)
                    (unwritable e e' null)
              | inr (cb, has) ↦
                  subst (λ c. Served p ev loop (call run c p.fd loop)) (sym has)
                    (writes cb e e' has)
            ])
            λ e'.
              if_elim (Served p ev loop) p.revents.hung
                (λ e''.
                  hung (record { unreadable = e; unwritable = e'; hung = e'' }) ev.read_callback
                    ev.write_callback refl refl)
                (λ e''. quiet e e' e'')
    where
      hung :
          IsHung p
          → (read write : Option ℕ) → ev.read_callback ≡ read
          → ev.write_callback ≡ write
          → Served p ev loop (elim read [
            | some cb ↦ run cb p.fd loop
            | none ↦ elim write [
              | some cb ↦ run cb p.fd loop
              | none ↦ some (del_io_event p.fd loop)
            ]
          ])
      hung h (some cb) write has other = hung_read cb h has
      hung h none (some cb) null has = hung_write cb h null has
      hung h none none null null' = closed h null null'

  -- The rounds from index `i` on, and how they end: past the last entry, or by an exception.
  pub data Rounds : ℕ → EventLoopPoll → Option EventLoopPoll → Type 0 where
    past : {i : ℕ} {loop : EventLoopPoll} → entry loop.fds i ≡ none → Rounds i loop (some loop)
    thrown :
        {i : ℕ} {loop : EventLoopPoll} (p : PollFd) (ev : IoEvent)
        → entry loop.fds i ≡ some p
        → lookup p.fd loop.io_events ≡ some ev
        → Served p ev loop none
        → Rounds i loop none
    next :
        {i : ℕ} {loop loop' : EventLoopPoll} {end : Option EventLoopPoll} (p : PollFd)
        (ev : IoEvent)
        → entry loop.fds i ≡ some p
        → lookup p.fd loop.io_events ≡ some ev
        → Served p ev loop (some loop')
        → Rounds (suc i) loop' end
        → Rounds i loop end

  -- Callbacks that leave the tables in step, whatever events they add and delete, let the loop over
  -- the entries end within 1025 rounds: each entry has its event, which gets the callback that its
  -- answer calls for, up to the last entry or to a callback that throws or is missing. Unless there is
  -- one, the tables are in step at the end.
  pub for_loop-Synced :
      (fuel i : ℕ) (loop : EventLoopPoll)
      → Synced loop
      → i ≤ max_fds
      → fuel + i ≡ max_fds + 1
      → (end : Option EventLoopPoll) × (for_loop run fuel i loop ≡ some end)
        × Rounds i loop end
        × OnSome Synced end
  unfolding for_loop
  for_loop-Synced zero i loop s low h = absurd (omega arith)
  for_loop-Synced (suc fuel) i loop s low h = elim (Option-cases (entry loop.fds i)) [
    | inl last ↦ (some loop, rw (last, for_loop) refl, past last, s)
    | inr (p, here) ↦
        let (ev, known, served) = entry-visit run loop i p s here in
        elim (Option-cases (visit run p loop)) [
          | inl fails ↦
              let w = subst (Served p ev loop) (sym served ∙ fails) (dispatch-Served p ev loop) in
              (none, rw (here, for_loop) (rw (fails) refl), thrown p ev here known w, tt)
          | inr (loop', went) ↦
              let w = subst (Served p ev loop) (sym served ∙ went) (dispatch-Served p ev loop) in
              let s' : Synced loop' = subst (OnSome Synced) went (visit-Synced p loop s) in
              let (end, ended, rounds, fine) =
                for_loop-Synced fuel (suc i) loop' s'
                  (omega (arith, s.room, entry_within loop.fds i p here)) (omega arith) in
              (end, rw (here, for_loop) (rw (went) ended), next p ev here known w rounds, fine)
        ]
  ]
