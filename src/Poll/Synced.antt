-- ===== src/Poll/Synced.antt =====
-- The three tables of EventLoopPoll.cpp agree: `m_fds`, `m_io_events` and `m_listening`.
use posix_bsp_perf.Prelude.{
  ◌<◌, ltb→lt, OnSome, Map, ℕ, ◌≤◌, ◌≡◌, ap, subst, ◌∙◌, Bool, true, false, Option, none, some,
  Option-cases, inl, inr, [], ◌∷◌, ◌++◌, length, length-append, ltb, ◌==◌, if◌then◌else◌, arith,
  lookup, insert, erase, lookup-insert, lookup-erase, if_elim,
}
use posix_bsp_perf.Registry.{Mask, mask_without, is_zero}
use posix_bsp_perf.Poll.{
  Revents, IoEvent, EventLoopPoll, max_fds, new_event, set_events, remove_fd, add_io_event,
  del_io_mask, del_io_event,
}
use posix_bsp_perf.Poll.Entries.{
  events_of, Single, events_of-append, append-Single, events_of-set_events, set_events-Single,
  events_of-remove_fd, remove_fd-Single, length-set_events, length-remove_fd,
}

abbrev pub mask_of : Option IoEvent → Option Mask
mask_of none = none
mask_of (some ev) = some ev.mask

abbrev pub held {ℓ} : {A : Type ℓ} → Option A → Bool
held none = false
held (some a) = true

-- Every registered descriptor has exactly one entry, with the events of its mask, and is listened
-- to; nothing else has an entry or is listened to; the entries fit the array.
pub record Synced (loop : EventLoopPoll) : Type 0 where
  pub same : (g : ℕ) → events_of g loop.fds ≡ mask_of (lookup g loop.io_events)
  pub single : Single loop.fds
  pub heard : (g : ℕ) → held (lookup g loop.listening) ≡ held (lookup g loop.io_events)
  pub room : length loop.fds ≤ max_fds

module _ (fd : ℕ) (loop : EventLoopPoll) (s : Synced loop) where
  -- Any new event of a descriptor that is registered, with its entry set to the event's mask.
  changed-Synced :
      (old ev : IoEvent) (listening : Map (Unit {0}))
      → lookup fd loop.io_events ≡ some old
      → ((g : ℕ)
          → held (lookup g listening) ≡ (if fd == g then true else held (lookup g loop.listening)))
      → Synced (record loop {
        fds = set_events fd ev.mask loop.fds;
        io_events = insert fd ev loop.io_events;
        listening = listening;
      })
  changed-Synced old ev listening found kept = record {
    same = λ g. ground (
      arith,
      s.same g,
      events_of-set_events fd g ev.mask old.mask loop.fds (s.same fd ∙ ap mask_of found),
      lookup-insert fd g ev loop.io_events,
    );
    single = set_events-Single fd ev.mask loop.fds s.single;
    heard = λ g. ground (arith, s.heard g, kept g, lookup-insert fd g ev loop.io_events);
    room = omega (arith, s.room, length-set_events fd ev.mask loop.fds);
  }

  removed-Synced : Synced (record loop {
    fds = remove_fd fd loop.fds;
    io_events = erase fd loop.io_events;
    listening = erase fd loop.listening;
  })
  removed-Synced = record {
    same = λ g. ground (
      arith,
      s.same g,
      events_of-remove_fd fd g loop.fds s.single,
      lookup-erase fd g loop.io_events,
    );
    single = remove_fd-Single fd loop.fds s.single;
    heard = λ g.
        ground
          (arith, s.heard g, lookup-erase fd g loop.listening, lookup-erase fd g loop.io_events);
    room = omega (arith, s.room, length-remove_fd fd loop.fds);
  }

  -- Deleting a descriptor keeps the tables in step.
  pub del_io_event-Synced : Synced (del_io_event fd loop)
  unfolding del_io_event
  del_io_event-Synced = elim (Option-cases (lookup fd loop.io_events)) [
    | inl absent ↦ rw (absent, del_io_event) s
    | inr (ev, found) ↦ rw (found, del_io_event) removed-Synced
  ]

  -- Deleting a mask of a descriptor keeps the tables in step.
  pub del_io_mask-Synced : (mask : Mask) → Synced (del_io_mask fd mask loop)
  unfolding del_io_mask
  del_io_mask-Synced mask = elim (Option-cases (lookup fd loop.io_events)) [
    | inl absent ↦ rw (absent, del_io_mask) s
    | inr (ev, found) ↦
        rw (found, del_io_mask)
          (if_elim Synced (is_zero (mask_without ev.mask mask)) (λ e. removed-Synced)
            (λ e.
              changed-Synced ev (record ev { mask = mask_without ev.mask mask }) loop.listening
                found (λ g. ground (arith, s.heard g))))
  ]

  appended-Synced :
      (stale : Revents) (ev : IoEvent)
      → lookup fd loop.io_events ≡ none
      → length loop.fds < max_fds
      → Synced (record loop {
        fds = loop.fds ++ record { fd = fd; events = ev.mask; revents = stale } ∷ [];
        io_events = insert fd ev loop.io_events;
        listening = insert fd tt loop.listening;
      })
  appended-Synced stale ev absent space =
      let missing = s.same fd ∙ ap mask_of absent in
      record {
        same = λ g. ground (
          arith,
          s.same g,
          events_of-append fd g ev.mask stale loop.fds missing,
          lookup-insert fd g ev loop.io_events,
        );
        single = append-Single fd ev.mask stale loop.fds missing s.single;
        heard = λ g. ground (
          arith,
          s.heard g,
          lookup-insert fd g tt loop.listening,
          lookup-insert fd g ev loop.io_events,
        );
        room = omega (
          arith,
          length-append loop.fds (record { fd = fd; events = ev.mask; revents = stale } ∷ []),
        );
      }

  add_io_event-OnSome :
      (stale : Revents) (proc : ℕ) (mask : Mask)
      → OnSome Synced (add_io_event stale fd proc mask loop)
  unfolding add_io_event
  add_io_event-OnSome stale proc mask = elim (Option-cases (lookup fd loop.io_events)) [
    | inl absent ↦
        rw (absent, add_io_event)
          (if_elim (OnSome Synced) (ltb (length loop.fds) max_fds)
            (λ e.
              appended-Synced stale (new_event (lookup fd loop.io_events) mask proc) absent
                (ltb→lt _ _ e))
            (λ e. tt))
    | inr (old, found) ↦
        rw (found, add_io_event)
          (changed-Synced old (new_event (lookup fd loop.io_events) mask proc)
            (insert fd tt loop.listening) found
            (λ g. ground (arith, s.heard g, lookup-insert fd g tt loop.listening)))
  ]

  -- Adding an event keeps the tables in step, whenever the array has room for it.
  pub add_io_event-Synced :
      (stale : Revents) (proc : ℕ) (mask : Mask) (loop' : EventLoopPoll)
      → add_io_event stale fd proc mask loop ≡ some loop'
      → Synced loop'
  add_io_event-Synced stale proc mask loop' e =
      subst (OnSome Synced) e (add_io_event-OnSome stale proc mask)
