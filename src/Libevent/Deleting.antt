-- ===== src/Libevent/Deleting.antt =====
-- EventLoopLibevent.cpp, for descriptors that are registered for reading: delIoEvent(fd) and, on any way
-- there, what it leaves; and what delIoEvent(fd, mask) does.
use posix_bsp_perf.Prelude.{
  ℕ, ◌≡◌, ◌≢◌, refl, sym, ap, subst, ◌∙◌, true, false, none, some, Option-cases, Bool-cases, inl,
  inr, lookup, erase, lookup-erase, ◌==◌, arith, ==-refl, ==→ne,
}
use posix_bsp_perf.Registry.{epollin, mask_without, is_zero}
use posix_bsp_perf.Poll.{IoEvent}
use posix_bsp_perf.Libevent.Tables.{erase_there, erase_left}
use posix_bsp_perf.Libevent.Readers.{
  reading, only_reads, Watched, Owned, IsReading, empty_loop, empty_loop-IsReading,
  add_io_event-IsReading,
}
use posix_bsp_perf.Libevent.{
  Event, EventLoopLibevent, add_io_event, free_event, free_one, del_io_event, del_io_mask,
  free_both, unregister,
}

differ : (a b : ℕ) → a ≢ b → (a == b) ≡ false
differ a b h = elim (Bool-cases (a == b)) [ inl e ↦ absurd (h (ground (arith, e))) | inr e ↦ e ]

module _ (fd : ℕ) (ev : IoEvent) (loop : EventLoopLibevent) (w : IsReading loop)
    (e : lookup fd loop.io_events ≡ some ev) where
  abbrev v : Watched fd ev loop
  v = w.watched fd ev e

  abbrev deleted : EventLoopLibevent
  deleted = unregister fd (erase v.id loop.events) loop

  deleted-Watched :
      (g : ℕ) (ev' : IoEvent) → lookup g deleted.io_events ≡ some ev' → Watched g ev' deleted
  deleted-Watched g ev' q =
      let (apart, old) = erase_left loop.io_events fd g ev' q in
      let u = w.watched g ev' old in
      let elsewhere : (v.id == u.id) ≡ false = differ v.id u.id (λ same.
        let one : some (reading fd) ≡ some (reading g) =
          sym v.event ∙ ap (λ i. lookup i loop.events) same ∙ u.event in
        ==→ne fd g apart cc) in
      record {
        id = u.id;
        mask = u.mask;
        pointer = u.pointer;
        event = erase_there loop.events v.id u.id elsewhere ∙ u.event;
      }

  deleted-Owned : (id : ℕ) (x : Event) → lookup id deleted.events ≡ some x → Owned id x.fd deleted
  deleted-Owned id x q =
      let (apart, old) = erase_left loop.events v.id id x q in
      let u = w.owned id x old in
      let elsewhere : (fd == x.fd) ≡ false = differ fd x.fd (λ same.
        let one : some (only_reads v.id) ≡ some (only_reads id) =
          sym v.pointer ∙ ap (λ i. lookup i loop.libevent_io_events) same ∙ u.pointer in
        ==→ne v.id id apart cc) in
      record {
        ev = u.ev;
        registered = erase_there loop.io_events fd x.fd elsewhere ∙ u.registered;
        pointer = u.pointer;
      }

  deleted-IsReading : IsReading deleted
  deleted-IsReading = record {
    fresh = λ id h. ground (arith, lookup-erase v.id id loop.events, w.fresh id);
    watched = deleted-Watched;
    owned = deleted-Owned;
    lone = w.lone;
  }

  del_io_event-deleted : del_io_event fd loop ≡ some deleted
  unfolding del_io_event free_one free_event
  del_io_event-deleted = rw (e, del_io_event) (rw (v.pointer) (rw (v.event) refl))

-- Registering a descriptor that is not registered, and deleting one, in any order.
pub data Reach : EventLoopLibevent → Type 0 where
  here : Reach empty_loop
  add :
      {loop : EventLoopLibevent} (fd proc : ℕ)
      → Reach loop
      → lookup fd loop.io_events ≡ none
      → Reach (add_io_event true fd proc epollin loop).1
  del :
      {loop loop' : EventLoopLibevent} (fd : ℕ)
      → Reach loop
      → del_io_event fd loop ≡ some loop'
      → Reach loop'

some_same : {a b : EventLoopLibevent} → some a ≡ some b → a ≡ b
some_same e = cc

Reach-IsReading : (loop : EventLoopLibevent) → Reach loop → IsReading loop
unfolding del_io_event
Reach-IsReading loop here = empty_loop-IsReading
Reach-IsReading loop (add {loop = old} fd proc r absent) =
    add_io_event-IsReading fd proc old (Reach-IsReading old r) absent
Reach-IsReading loop (del {loop = old} fd r e) =
    let w = Reach-IsReading old r in
    elim (Option-cases (lookup fd old.io_events)) [
      | inl absent ↦
          let stays : del_io_event fd old ≡ some old = rw (absent, del_io_event) refl in
          let same : old ≡ loop = cc in subst IsReading same w
      | inr (ev, found) ↦
          let same : deleted fd ev old w found ≡ loop =
            some_same (sym (del_io_event-deleted fd ev old w found) ∙ e) in
          subst IsReading same (deleted-IsReading fd ev old w found)
    ]

-- What a deletion leaves of `before`: nothing of the descriptor but its pointer, and an event for every
-- other one.
pub record Left (fd : ℕ) (before loop : EventLoopLibevent) : Type 0 where
  pub pointers : loop.libevent_io_events ≡ before.libevent_io_events
  pub gone : lookup fd loop.io_events ≡ none
  pub quiet : (id : ℕ) (x : Event) → lookup id loop.events ≡ some x → x.fd ≢ fd
  pub others : (g : ℕ) (ev : IoEvent) → lookup g loop.io_events ≡ some ev → Watched g ev loop

gone-Left :
    (fd : ℕ) (before loop : EventLoopLibevent)
    → IsReading loop
    → lookup fd loop.io_events ≡ none
    → loop.libevent_io_events ≡ before.libevent_io_events
    → Left fd before loop
gone-Left fd before loop w absent pointers = record {
  pointers = pointers;
  gone = absent;
  quiet = λ id x q same.
      let u = w.owned id x q in
      let there = sym u.registered ∙ ap (λ g. lookup g loop.io_events) same ∙ absent in absurd cc;
  others = w.watched;
}

-- Descriptors are registered for reading only, and only while they are not registered, and every
-- allocation succeeds. Then, whatever has been registered and deleted before, delIoEvent(fd) does not
-- fault; afterwards the descriptor is not registered and the library has no event of it, every other
-- registered descriptor has its event, and the table of pointers is as before: it keeps the pointer
-- to the event that was freed.
pub Reach-del_io_event :
    (loop : EventLoopLibevent) (fd : ℕ)
    → Reach loop
    → (loop' : EventLoopLibevent) × (del_io_event fd loop ≡ some loop') × Left fd loop loop'
unfolding del_io_event
Reach-del_io_event loop fd r =
    let w = Reach-IsReading loop r in
    elim (Option-cases (lookup fd loop.io_events)) [
      | inl absent ↦ (loop, rw (absent, del_io_event) refl, gone-Left fd loop loop w absent refl)
      | inr (ev, found) ↦
          let last = deleted fd ev loop w found in
          let out : lookup fd last.io_events ≡ none =
            rw (lookup-erase fd fd loop.io_events, ==-refl fd) refl in
          (
            last,
            del_io_event-deleted fd ev loop w found,
            gone-Left fd loop last (deleted-IsReading fd ev loop w found) out refl,
          )
    ]

-- Under the same conditions, delIoEvent(fd, EPOLLIN) on a registered descriptor always faults: it goes on
-- to free the event for writing, which there is not.
pub Reach-del_io_mask :
    (loop : EventLoopLibevent) (fd : ℕ) (ev : IoEvent)
    → Reach loop
    → lookup fd loop.io_events ≡ some ev
    → del_io_mask fd epollin loop ≡ none
unfolding del_io_mask free_both free_event
Reach-del_io_mask loop fd ev r e =
    let v = (Reach-IsReading loop r).watched fd ev e in
    let last : is_zero (mask_without ev.mask epollin) ≡ true =
      ap (λ m. is_zero (mask_without m epollin)) v.mask in
    rw (e, del_io_mask) (rw (v.pointer) (rw (last) (rw (v.event) refl)))
