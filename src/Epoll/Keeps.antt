-- ===== src/Epoll/Keeps.antt =====
-- EventLoopEpoll.cpp keeps its tables and the kernel's interest list together.
use posix_bsp_perf.Prelude.{
  ℕ, ◌≡◌, refl, Bool, true, Option, none, some, Option-cases, inl, inr, Map, lookup, insert, erase,
  lookup-insert, lookup-erase, ◌==◌, if◌then◌else◌, if_elim, arith,
}
use posix_bsp_perf.Registry.{Mask, no_mask, mask_without, is_zero}
use posix_bsp_perf.Poll.{IoEvent, new_event}
use posix_bsp_perf.Poll.Synced.{mask_of, held}
use posix_bsp_perf.Epoll.{
  CtlOp, ctl_add, ctl_mod, ctl_del, op_for, after_ctl, EventLoopEpoll, add_io_event, del_io_mask,
  del_io_event,
}

-- What an operation that succeeds leaves for its descriptor.
abbrev pub set_to : CtlOp → Mask → Option Mask
set_to ctl_add mask = some mask
set_to ctl_mod mask = some mask
set_to ctl_del mask = none

-- What epoll_ctl(2) says: a call that succeeds changes the entry of its descriptor alone, and
-- EPOLL_CTL_MOD fails on a descriptor that is not in the list.
pub record Obeys (epoll_ctl : CtlOp → ℕ → Mask → Map Mask → Option (Map Mask)) : Type 0 where
  pub sets :
      (op : CtlOp) (fd g : ℕ) (mask : Mask) (list list' : Map Mask)
      → epoll_ctl op fd mask list ≡ some list'
      → lookup g list' ≡ (if fd == g then set_to op mask else lookup g list)
  pub absent :
      (fd : ℕ) (mask : Mask) (list : Map Mask)
      → lookup fd list ≡ none
      → epoll_ctl ctl_mod fd mask list ≡ none

-- The kernel watches what the table of events says, and nothing else is listened to.
pub record Together (loop : EventLoopEpoll) : Type 0 where
  pub same : (g : ℕ) → lookup g loop.interest_list ≡ mask_of (lookup g loop.io_events)
  pub heard : (g : ℕ) → held (lookup g loop.listening) ≡ held (lookup g loop.io_events)

module _ (epoll_ctl : CtlOp → ℕ → Mask → Map Mask → Option (Map Mask)) where
  module _ (o : Obeys epoll_ctl) (fd : ℕ) (loop : EventLoopEpoll) (t : Together loop) where
    -- A call of `epoll_ctl` for what the table of events now says of the descriptor.
    after_ctl-Together :
        (op : CtlOp) (mask : Mask) (thrown done : EventLoopEpoll) (result : Option (Map Mask))
        → ((g : ℕ)
            → mask_of (lookup g done.io_events)
              ≡ (if fd == g then set_to op mask else mask_of (lookup g loop.io_events)))
        → ((g : ℕ) → held (lookup g done.listening) ≡ held (lookup g done.io_events))
        → epoll_ctl op fd mask loop.interest_list ≡ result
        → (after_ctl result thrown done).0 ≡ true
        → Together (after_ctl result thrown done).1
    after_ctl-Together op mask thrown done none k l e h = absurd (cc)
    after_ctl-Together op mask thrown done (some list) k l e h = record {
      same = λ g. ground (arith, o.sets op fd g mask loop.interest_list list e, k g, t.same g);
      heard = l;
    }

    set_to-op_for : (found : Option IoEvent) (mask : Mask) → set_to (op_for found) mask ≡ some mask
    set_to-op_for none mask = refl
    set_to-op_for (some ev) mask = refl

    -- A new event under either operation that sets, with the descriptor listened to.
    event-Together :
        (op : CtlOp) (ev : IoEvent) (listening : Map (Unit {0})) (thrown : EventLoopEpoll)
        → set_to op ev.mask ≡ some ev.mask
        → ((g : ℕ)
            → held (lookup g listening)
              ≡ (if fd == g then true else held (lookup g loop.listening)))
        → let done : EventLoopEpoll = record loop {
          io_events = insert fd ev loop.io_events;
          listening = listening;
        } in
          (after_ctl (epoll_ctl op fd ev.mask loop.interest_list) thrown done).0 ≡ true
          → Together (after_ctl (epoll_ctl op fd ev.mask loop.interest_list) thrown done).1
    event-Together op ev listening thrown s l =
        after_ctl-Together op ev.mask thrown _ (epoll_ctl op fd ev.mask loop.interest_list)
          (λ g. ground (arith, lookup-insert fd g ev loop.io_events, s))
          (λ g. ground (arith, l g, lookup-insert fd g ev loop.io_events, t.heard g)) refl

    gone-Together :
        (thrown : EventLoopEpoll)
        → let done : EventLoopEpoll = record loop {
          io_events = erase fd loop.io_events;
          listening = erase fd loop.listening;
        } in
          (after_ctl (epoll_ctl ctl_del fd no_mask loop.interest_list) thrown done).0 ≡ true
          → Together (after_ctl (epoll_ctl ctl_del fd no_mask loop.interest_list) thrown done).1
    gone-Together thrown =
        after_ctl-Together ctl_del no_mask thrown _
          (epoll_ctl ctl_del fd no_mask loop.interest_list)
          (λ g. ground (arith, lookup-erase fd g loop.io_events))
          (λ g.
            ground (
              arith,
              lookup-erase fd g loop.listening,
              lookup-erase fd g loop.io_events,
              t.heard g,
            ))
          refl

    pub add_io_event-Together :
        (proc : ℕ) (mask : Mask)
        → (add_io_event epoll_ctl fd proc mask loop).0 ≡ true
        → Together (add_io_event epoll_ctl fd proc mask loop).1
    unfolding add_io_event
    add_io_event-Together proc mask =
        let ev = new_event (lookup fd loop.io_events) mask proc in
        event-Together (op_for (lookup fd loop.io_events)) ev (insert fd tt loop.listening)
          (record loop { io_events = insert fd ev loop.io_events })
          (set_to-op_for (lookup fd loop.io_events) ev.mask)
          (λ g. ground (arith, lookup-insert fd g tt loop.listening))

    pub del_io_event-Together :
        (del_io_event epoll_ctl fd loop).0 ≡ true → Together (del_io_event epoll_ctl fd loop).1
    unfolding del_io_event
    del_io_event-Together = elim (Option-cases (lookup fd loop.io_events)) [
      | inl absent ↦ rw (absent, del_io_event) (λ h. t)
      | inr (ev, found) ↦ rw (found, del_io_event) (gone-Together _)
    ]

    pub del_io_mask-Together :
        (mask : Mask)
        → (del_io_mask epoll_ctl fd mask loop).0 ≡ true
        → Together (del_io_mask epoll_ctl fd mask loop).1
    unfolding del_io_mask
    del_io_mask-Together mask = elim (Option-cases (lookup fd loop.io_events)) [
      | inl absent ↦ rw (absent, del_io_mask) (λ h. t)
      | inr (ev, found) ↦
          let left = mask_without ev.mask mask in
          rw (found, del_io_mask)
            (if_elim (λ (r : Bool × EventLoopEpoll). r.0 ≡ true → Together r.1) (is_zero left)
              (λ e. gone-Together _)
              (λ e.
                event-Together ctl_mod (record ev { mask = left }) loop.listening _ refl
                  (λ g. ground (arith, t.heard fd, found))))
    ]
