-- ===== src/Epoll/Failing.antt =====
-- Where EventLoopEpoll.cpp fails: a registration after one that failed, and a descriptor that is deleted
-- while its event waits in `m_fired_events`.
use posix_bsp_perf.Prelude.{
  ℕ, ◌≡◌, refl, ap, ◌∙◌, true, false, Option, none, some, Option-cases, inl, inr, List, ◌∷◌, Map,
  lookup, insert, erase, lookup-insert, lookup-erase, arith,
}
use posix_bsp_perf.Registry.{Mask, no_mask}
use posix_bsp_perf.Poll.{IoEvent, new_event}
use posix_bsp_perf.Poll.Synced.{mask_of}
use posix_bsp_perf.Epoll.{
  CtlOp, ctl_del, op_for, after_ctl, EventLoopEpoll, Fired, add_io_event, del_io_event, dispatch,
  fire_all,
}
use posix_bsp_perf.Epoll.Keeps.{Obeys, Together}

after_ctl-io_events :
    (result : Option (Map Mask)) (thrown done : EventLoopEpoll) (g : ℕ) (ev : Option IoEvent)
    → lookup g thrown.io_events ≡ ev
    → lookup g done.io_events ≡ ev
    → lookup g (after_ctl result thrown done).1.io_events ≡ ev
after_ctl-io_events none thrown done g ev h k = h
after_ctl-io_events (some list) thrown done g ev h k = k

-- A call that throws leaves the kernel's list as `thrown` has it.
after_ctl-interest_list :
    (result : Option (Map Mask)) (thrown done : EventLoopEpoll)
    → (after_ctl result thrown done).0 ≡ false
    → (after_ctl result thrown done).1 ≡ thrown
after_ctl-interest_list none thrown done h = refl
after_ctl-interest_list (some list) thrown done h = absurd (cc)

module _ (epoll_ctl : CtlOp → ℕ → Mask → Map Mask → Option (Map Mask)) where
  add_registered :
      (fd proc : ℕ) (mask : Mask) (loop : EventLoopEpoll) (ev : IoEvent)
      → Obeys epoll_ctl
      → lookup fd loop.io_events ≡ some ev
      → lookup fd loop.interest_list ≡ none
      → (add_io_event epoll_ctl fd proc mask loop).0 ≡ false
  unfolding add_io_event
  add_registered fd proc mask loop ev o found gone =
      let m = (new_event (lookup fd loop.io_events) mask proc).mask in
      let fails : epoll_ctl (op_for (lookup fd loop.io_events)) fd m loop.interest_list ≡ none =
        ap (λ x. epoll_ctl (op_for x) fd m loop.interest_list) found
        ∙ o.absent fd m loop.interest_list gone in
      ap
        (λ r.
          (after_ctl r
            (record loop {
              io_events = insert fd (new_event (lookup fd loop.io_events) mask proc) loop.io_events;
            })
            (record loop {
              io_events = insert fd (new_event (lookup fd loop.io_events) mask proc) loop.io_events;
              listening = insert fd tt loop.listening;
            })).0)
        fails

module _ (epoll_ctl : CtlOp → ℕ → Mask → Map Mask → Option (Map Mask)) where
  -- From tables that agree with the kernel's list, if `addIoEvent` throws for a descriptor that is not
  -- registered, it throws again for that descriptor, whatever the kernel does with additions by then.
  pub add_io_event_sticks :
      (later : CtlOp → ℕ → Mask → Map Mask → Option (Map Mask)) (fd proc proc' : ℕ)
      (mask mask' : Mask) (loop : EventLoopEpoll)
      → Obeys later
      → Together loop
      → lookup fd loop.io_events ≡ none
      → (add_io_event epoll_ctl fd proc mask loop).0 ≡ false
      → (add_io_event later fd proc' mask' (add_io_event epoll_ctl fd proc mask loop).1).0 ≡ false
  unfolding add_io_event
  add_io_event_sticks later fd proc proc' mask mask' loop o t absent thrown =
      let ev = new_event (lookup fd loop.io_events) mask proc in
      let left : EventLoopEpoll = record loop { io_events = insert fd ev loop.io_events } in
      let state : (add_io_event epoll_ctl fd proc mask loop).1 ≡ left =
        after_ctl-interest_list _ left _ thrown in
      let found : lookup fd left.io_events ≡ some ev =
        ground (arith, lookup-insert fd fd ev loop.io_events) in
      let gone : lookup fd left.interest_list ≡ none = t.same fd ∙ ap mask_of absent in
      ap (λ l. (add_io_event later fd proc' mask' l).0) state
      ∙ add_registered later fd proc' mask' left ev o found gone

  del_io_event-io_events :
      (fd : ℕ) (loop : EventLoopEpoll)
      → lookup fd (del_io_event epoll_ctl fd loop).1.io_events ≡ none
  unfolding del_io_event
  del_io_event-io_events fd loop = elim (Option-cases (lookup fd loop.io_events)) [
    | inl absent ↦ rw (absent, del_io_event) absent
    | inr (ev, found) ↦
        let gone : EventLoopEpoll = record loop {
          io_events = erase fd loop.io_events;
          listening = erase fd loop.listening;
        } in
        rw (found, del_io_event)
          (after_ctl-io_events (epoll_ctl ctl_del fd no_mask loop.interest_list) gone gone fd none
            (ground (arith, lookup-erase fd fd loop.io_events))
            (ground (arith, lookup-erase fd fd loop.io_events)))
  ]

  -- If the read callback of a fired descriptor deletes another whose event comes next, the assertion
  -- in `processEvents` fails, whatever the outcome of `epoll_ctl`.
  pub fire_all-del_io_event :
      (run : ℕ → ℕ → EventLoopEpoll → Option EventLoopEpoll) (f next : Fired) (rest : List Fired)
      (ev : IoEvent) (cb : ℕ) (loop : EventLoopEpoll)
      → lookup f.fd loop.io_events ≡ some ev
      → ev.read_callback ≡ some cb
      → f.events.readable ≡ true
      → run cb f.fd loop ≡ some (del_io_event epoll_ctl next.fd loop).1
      → fire_all epoll_ctl run (f ∷ next ∷ rest) loop ≡ none
  unfolding fire_all dispatch
  fire_all-del_io_event run f next rest ev cb loop found reads readable ran =
      rw (found, readable, reads, ran, del_io_event-io_events next.fd loop, fire_all, dispatch) refl
