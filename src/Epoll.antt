-- ===== src/Epoll.antt =====
-- bsp/bsp_sockets/impl/EventLoopEpoll.cpp: the event loop over epoll(7). What `::epoll_ctl` does to the
-- interest list of the kernel is the parameter `epoll_ctl`, with `none` for a result of -1; a call that
-- throws gives `false` beside the loop as the exception leaves it. Events, callbacks and tasks are
-- those of the loop over poll.
pub mod Keeps
pub mod Refine
pub mod Failing
mod Tests
use posix_bsp_perf.Prelude.{
  length, ℕ, Bool, true, false, ◌≡◌, Option, none, some, List, [], ◌∷◌, ◌++◌, Map, lookup, insert,
  erase, ◌==◌, if◌then◌else◌,
}
use posix_bsp_perf.Registry.{Mask, no_mask, mask_without, is_zero}
use posix_bsp_perf.Poll.{IoEvent, Revents, new_event}

pub data CtlOp : Type 0 where
  ctl_add : CtlOp
  ctl_mod : CtlOp
  ctl_del : CtlOp

pub record EventLoopEpoll : Type 0 where
  pub io_events : Map IoEvent
  pub pending_factors : List ℕ
  pub listening : Map (Unit {0})
  pub interest_list : Map Mask

-- An element of `m_fired_events`, with the bits of `events` as for poll.
pub record Fired : Type 0 where
  pub fd : ℕ
  pub events : Revents

abbrev pub op_for : Option IoEvent → CtlOp
op_for none = ctl_add
op_for (some ev) = ctl_mod

-- What a call leaves, by the result of `epoll_ctl`: the loop as it throws, or the loop once it is done.
abbrev pub after_ctl : Option (Map Mask) → EventLoopEpoll → EventLoopEpoll → Bool × EventLoopEpoll
after_ctl none thrown done = (false, thrown)
after_ctl (some list) thrown done = (true, record done { interest_list = list })

module _ (epoll_ctl : CtlOp → ℕ → Mask → Map Mask → Option (Map Mask)) where
  unfoldable pub add_io_event : ℕ → ℕ → Mask → EventLoopEpoll → Bool × EventLoopEpoll
  unfolding new_event
  add_io_event fd proc mask loop =
      let ev = new_event (lookup fd loop.io_events) mask proc in
      after_ctl (epoll_ctl (op_for (lookup fd loop.io_events)) fd ev.mask loop.interest_list)
        (record loop { io_events = insert fd ev loop.io_events })
        (record loop {
          io_events = insert fd ev loop.io_events;
          listening = insert fd tt loop.listening;
        })

  -- `delIoEvent(fd, mask)`
  unfoldable pub del_io_mask : ℕ → Mask → EventLoopEpoll → Bool × EventLoopEpoll
  del_io_mask fd mask loop = elim (lookup fd loop.io_events) [
    | none ↦ (true, loop)
    | some ev ↦
        let left = mask_without ev.mask mask in
        if is_zero left
        then after_ctl (epoll_ctl ctl_del fd no_mask loop.interest_list)
            (record loop { io_events = erase fd loop.io_events })
            (record loop {
              io_events = erase fd loop.io_events;
              listening = erase fd loop.listening;
            })
        else after_ctl (epoll_ctl ctl_mod fd left loop.interest_list)
            (record loop { io_events = insert fd (record ev { mask = left }) loop.io_events })
            (record loop { io_events = insert fd (record ev { mask = left }) loop.io_events })
  ]

  -- `delIoEvent(fd)`
  unfoldable pub del_io_event : ℕ → EventLoopEpoll → Bool × EventLoopEpoll
  del_io_event fd loop = elim (lookup fd loop.io_events) [
    | none ↦ (true, loop)
    | some ev ↦
        after_ctl (epoll_ctl ctl_del fd no_mask loop.interest_list)
          (record loop { io_events = erase fd loop.io_events; listening = erase fd loop.listening })
          (record loop { io_events = erase fd loop.io_events; listening = erase fd loop.listening })
  ]

  module _ (run : ℕ → ℕ → EventLoopEpoll → Option EventLoopEpoll) where
    -- Calling a null callback throws.
    abbrev pub call : Option ℕ → ℕ → EventLoopEpoll → Option EventLoopEpoll
    call none fd loop = none
    call (some cb) fd loop = run cb fd loop

    abbrev pub unless_thrown : Bool × EventLoopEpoll → Option EventLoopEpoll
    unless_thrown r = if r.0 then some r.1 else none

    unfoldable pub dispatch : Fired → IoEvent → EventLoopEpoll → Option EventLoopEpoll
    unfolding del_io_event
    dispatch f ev loop =
        if f.events.readable
        then call ev.read_callback f.fd loop
        else if f.events.writable
        then call ev.write_callback f.fd loop
        else if f.events.hung
        then elim ev.read_callback [
          | some cb ↦ run cb f.fd loop
          | none ↦ elim ev.write_callback [
            | some cb ↦ run cb f.fd loop
            | none ↦ unless_thrown (del_io_event f.fd loop)
          ]
        ]
        else some loop

    -- The `for` loop of `processEvents`. `none` is an exception or a failed assertion: a fired
    -- descriptor without an event.
    unfoldable pub fire_all : List Fired → EventLoopEpoll → Option EventLoopEpoll
    unfolding dispatch
    fire_all [] loop = some loop
    fire_all (f ∷ rest) loop = elim (lookup f.fd loop.io_events) [
      | none ↦ none
      | some ev ↦ elim (dispatch f ev loop) [ none ↦ none | some loop' ↦ fire_all rest loop' ]
    ]

abbrev pub add_task : ℕ → EventLoopEpoll → EventLoopEpoll
add_task task loop = record loop { pending_factors = loop.pending_factors ++ task ∷ [] }

-- The loop of `runTask`. `none` when a task throws, or adds a task, which invalidates the iterator.
module _ (perform : ℕ → EventLoopEpoll → Option EventLoopEpoll) where
  unfoldable pub run_tasks : List ℕ → EventLoopEpoll → Option EventLoopEpoll
  run_tasks [] loop = some loop
  run_tasks (task ∷ tasks) loop = elim (perform task loop) [
    | none ↦ none
    | some loop' ↦
        let later = run_tasks tasks loop' in
        if length loop'.pending_factors == length loop.pending_factors then later else none
  ]

  unfoldable pub run_task : EventLoopEpoll → Option EventLoopEpoll
  unfolding run_tasks
  run_task loop = elim (run_tasks loop.pending_factors loop) [
    | none ↦ none
    | some loop' ↦ some (record loop' { pending_factors = [] })
  ]
