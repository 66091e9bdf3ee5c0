-- ===== src/Poll/Refine.antt =====
-- EventLoopPoll.cpp keeps what IEventLoop.hpp promises.
use posix_bsp_perf.Prelude.{
  ℕ, ◌≡◌, refl, subst, OnSome, Option, none, some, Option-cases, inl, inr, lookup, lookup-insert,
  lookup-erase, ◌==◌, if◌then◌else◌, if_elim, arith, length, ltb,
}
use posix_bsp_perf.Registry
use posix_bsp_perf.Registry.{
  Registry, Mask, no_mask, mask_or, mask_without, is_zero, interest, interest-add_io_event,
  interest-del_io_mask, interest-del_io_event,
}
use posix_bsp_perf.Poll.{
  Revents, IoEvent, EventLoopPoll, max_fds, new_event, find_event, add_io_event, del_io_mask,
  del_io_event,
}

-- The mask that the loop keeps for a descriptor.
unfoldable pub watched : EventLoopPoll → ℕ → Mask
watched loop g = (find_event (lookup g loop.io_events)).mask

abbrev pub Refines : Registry → EventLoopPoll → Type 0
Refines r loop = (g : ℕ) → interest r g ≡ watched loop g

new_event_mask :
    (found : Option IoEvent) (mask : Mask) (proc : ℕ)
    → (new_event found mask proc).mask ≡ mask_or (find_event found).mask mask
unfolding new_event
new_event_mask found mask proc = refl

module _ (fd : ℕ) (r : Registry) (loop : EventLoopPoll) (h : Refines r loop) where
  watched-add_io_event :
      (stale : Revents) (proc : ℕ) (mask : Mask) (loop' : EventLoopPoll) (g : ℕ)
      → add_io_event stale fd proc mask loop ≡ some loop'
      → watched loop' g ≡ (if fd == g then mask_or (watched loop fd) mask else watched loop g)
  unfolding watched add_io_event
  watched-add_io_event stale proc mask loop' g e =
      subst
        (OnSome
          λ l. watched l g ≡ (if fd == g then mask_or (watched loop fd) mask else watched loop g))
        e (all (lookup fd loop.io_events) refl)
    where
      ev : IoEvent
      ev = new_event (lookup fd loop.io_events) mask proc

      Right : EventLoopPoll → Type 0
      Right l = watched l g ≡ (if fd == g then mask_or (watched loop fd) mask else watched loop g)

      all :
          (found : Option IoEvent)
          → lookup fd loop.io_events ≡ found
          → OnSome Right (add_io_event stale fd proc mask loop)
      all none absent =
          rw (absent, add_io_event)
            (if_elim (OnSome Right) (ltb (length loop.fds) max_fds)
              (λ b. ground (arith, lookup-insert fd g ev loop.io_events)) (λ b. tt))
      all (some old) found =
          rw (found, add_io_event) (ground (arith, lookup-insert fd g ev loop.io_events))

  -- Adding an event to the loop does what it does to the registry, whenever the array has room.
  pub add_io_event-Refines :
      (stale : Revents) (proc : ℕ) (mask : Mask) (loop' : EventLoopPoll)
      → add_io_event stale fd proc mask loop ≡ some loop'
      → Refines (Registry.add_io_event fd mask r) loop'
  add_io_event-Refines stale proc mask loop' e g = ground (
    arith,
    h g,
    h fd,
    interest-add_io_event fd g r mask,
    watched-add_io_event stale proc mask loop' g e,
  )

  watched-del_io_mask :
      (mask : Mask) (g : ℕ)
      → watched (del_io_mask fd mask loop) g
        ≡ (if fd == g then mask_without (watched loop fd) mask else watched loop g)
  unfolding watched del_io_mask
  watched-del_io_mask mask g = elim (Option-cases (lookup fd loop.io_events)) [
    | inl absent ↦ rw (absent, del_io_mask, watched) (ground arith)
    | inr (ev, found) ↦
        rw (found, del_io_mask, watched)
          (ground (
            arith,
            lookup-erase fd g loop.io_events,
            lookup-insert fd g (record ev { mask = mask_without ev.mask mask }) loop.io_events,
          ))
  ]

  -- Deleting a mask of a descriptor does to the loop what it does to the registry.
  pub del_io_mask-Refines :
      (mask : Mask) → Refines (Registry.del_io_mask fd mask r) (del_io_mask fd mask loop)
  del_io_mask-Refines mask g =
      ground (arith, h g, h fd, interest-del_io_mask fd g r mask, watched-del_io_mask mask g)

  watched-del_io_event :
      (g : ℕ) → watched (del_io_event fd loop) g ≡ (if fd == g then no_mask else watched loop g)
  unfolding watched del_io_event
  watched-del_io_event g = elim (Option-cases (lookup fd loop.io_events)) [
    | inl absent ↦ rw (absent, del_io_event, watched) (ground arith)
    | inr (ev, found) ↦
        rw (found, del_io_event, watched) (ground (arith, lookup-erase fd g loop.io_events))
  ]

  -- Deleting a descriptor does to the loop what it does to the registry.
  pub del_io_event-Refines : Refines (Registry.del_io_event fd r) (del_io_event fd loop)
  del_io_event-Refines g = ground (arith, h g, interest-del_io_event fd g r, watched-del_io_event g)
