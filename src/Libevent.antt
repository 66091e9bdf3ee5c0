-- ===== src/Libevent.antt =====
-- bsp/bsp_sockets/impl/EventLoopLibevent.cpp: the event loop over libevent. The library is the list of the
-- events that were made and added, each under a number of its own, which stands for the pointer to it.
-- An event is deleted and freed in one go; to do so by a null pointer, or by a pointer to an event
-- that has been freed, is a fault. Callbacks and tasks are handles, as for the loop over poll.
pub mod Tables
pub mod Readers
pub mod Deleting
mod Tests
use posix_bsp_perf.Prelude.{
  ℕ, ◌+◌, Bool, true, false, Option, none, some, List, [], ◌∷◌, ◌++◌, Map, lookup, insert, erase,
  length, ◌==◌, if◌then◌else◌,
}
use posix_bsp_perf.Registry.{Mask, no_mask, epollin, epollout, mask_without, is_zero}
use posix_bsp_perf.Poll.{IoEvent, find_event, new_event}

-- A null pointer is `none`.
pub record LibeventIoEvent : Type 0 where
  pub event_for_read : Option ℕ
  pub event_for_write : Option ℕ

-- An event of the library: its descriptor, and EV_READ or EV_WRITE.
pub record Event : Type 0 where
  pub fd : ℕ
  pub what : Mask

pub record EventLoopLibevent : Type 0 where
  pub io_events : Map IoEvent
  pub listening : Map (Unit {0})
  pub libevent_io_events : Map LibeventIoEvent
  pub events : Map Event
  pub next_event : ℕ
  pub pending_factors : List ℕ

-- EPOLLIN goes before EPOLLOUT.
abbrev pub direction : Mask → Mask
direction mask = if mask.reads then epollin else if mask.writes then epollout else no_mask

abbrev pub find_pointers : Option LibeventIoEvent → LibeventIoEvent
find_pointers none = record { event_for_read = none; event_for_write = none }
find_pointers (some l) = l

-- The pointer to the new event is kept; the one before it is overwritten.
unfoldable pub keep_pointer : ℕ → Mask → ℕ → Map LibeventIoEvent → Map LibeventIoEvent
keep_pointer fd mask id m =
    let found = find_pointers (lookup fd m) in
    if mask.reads
    then insert fd (record found { event_for_read = some id }) m
    else if mask.writes
    then insert fd (record found { event_for_write = some id }) m
    else m

-- `added` tells whether `event_new` and `event_add` succeed; if not, the result is `false`, for an
-- exception.
unfoldable pub add_io_event : Bool → ℕ → ℕ → Mask → EventLoopLibevent → Bool × EventLoopLibevent
unfolding new_event keep_pointer
add_io_event added fd proc mask loop =
    let registered = record loop {
      io_events = insert fd (new_event (lookup fd loop.io_events) mask proc) loop.io_events;
    } in
    if added
    then (
      true,
      record registered {
        libevent_io_events = keep_pointer fd mask loop.next_event loop.libevent_io_events;
        events = insert loop.next_event (record { fd = fd; what = direction mask }) loop.events;
        next_event = loop.next_event + 1;
      },
    )
    else (false, registered)

-- `event_del` and `event_free`. `none` is a fault.
unfoldable pub free_event : Option ℕ → Map Event → Option (Map Event)
free_event none events = none
free_event (some id) events = elim (lookup id events) [
  | none ↦ none
  | some e ↦ some (erase id events)
]

-- What `delIoEvent(fd)` frees: the event for reading, or else that for writing.
unfoldable pub free_one : LibeventIoEvent → Map Event → Option (Map Event)
unfolding free_event
free_one l events = elim l.event_for_read [
  | some id ↦ free_event (some id) events
  | none ↦ elim l.event_for_write [ some id ↦ free_event (some id) events | none ↦ some events ]
]

abbrev pub unregister : ℕ → Map Event → EventLoopLibevent → EventLoopLibevent
unregister fd events loop = record loop {
  events = events;
  io_events = erase fd loop.io_events;
  listening = erase fd loop.listening;
}

-- `delIoEvent(fd)`. A descriptor that has no pointers is a fault.
unfoldable pub del_io_event : ℕ → EventLoopLibevent → Option EventLoopLibevent
unfolding free_one
del_io_event fd loop = elim (lookup fd loop.io_events) [
  | none ↦ some loop
  | some ev ↦ elim (lookup fd loop.libevent_io_events) [
    | none ↦ none
    | some l ↦ elim (free_one l loop.events) [
      | none ↦ none
      | some events ↦ some (unregister fd events loop)
    ]
  ]
]

unfoldable pub free_both : LibeventIoEvent → Map Event → Option (Map Event)
unfolding free_event
free_both l events = elim (free_event l.event_for_read events) [
  | none ↦ none
  | some rest ↦ free_event l.event_for_write rest
]

-- The event of the direction that is not left.
unfoldable pub free_other : Mask → LibeventIoEvent → Map Event → Option (Map Event)
unfolding free_event
free_other left l events =
    elim (if left.reads then free_event l.event_for_write events else some events) [
      | none ↦ none
      | some rest ↦ if left.writes then free_event l.event_for_read rest else some rest
    ]

-- `delIoEvent(fd, mask)`
unfoldable pub del_io_mask : ℕ → Mask → EventLoopLibevent → Option EventLoopLibevent
unfolding free_both free_other
del_io_mask fd mask loop = elim (lookup fd loop.io_events) [
  | none ↦ some loop
  | some ev ↦
      let left = mask_without ev.mask mask in
      elim (lookup fd loop.libevent_io_events) [
        | none ↦ none
        | some l ↦
            if is_zero left
            then elim (free_both l loop.events) [
              | none ↦ none
              | some events ↦ some (unregister fd events loop)
            ]
            else elim (free_other left l loop.events) [
              | none ↦ none
              | some events ↦ some (record loop {
                events = events;
                io_events = insert fd (record ev { mask = left }) loop.io_events;
              })
            ]
      ]
]

abbrev pub add_task : ℕ → EventLoopLibevent → EventLoopLibevent
add_task task loop = record loop { pending_factors = loop.pending_factors ++ task ∷ [] }

module _ (run : ℕ → ℕ → EventLoopLibevent → Option EventLoopLibevent) where
  -- A null callback is passed over.
  abbrev pub call : Option ℕ → ℕ → EventLoopLibevent → Option EventLoopLibevent
  call none fd loop = some loop
  call (some cb) fd loop = run cb fd loop

  -- `lib_callback`: looking the descriptor up makes an entry for it where there is none. No event is
  -- made for signals.
  unfoldable pub lib_callback : Event → EventLoopLibevent → Option EventLoopLibevent
  lib_callback e loop =
      let ev = find_event (lookup e.fd loop.io_events) in
      let touched = record loop { io_events = insert e.fd ev loop.io_events } in
      if e.what.reads
      then call ev.read_callback e.fd touched
      else if e.what.writes
      then call ev.write_callback e.fd touched
      else some loop

  -- `event_base_loop` on the events that are ready. One that has been deleted meanwhile is not called.
  unfoldable pub base_loop : List ℕ → EventLoopLibevent → Option EventLoopLibevent
  unfolding lib_callback
  base_loop [] loop = some loop
  base_loop (id ∷ ready) loop = elim (lookup id loop.events) [
    | none ↦ base_loop ready loop
    | some e ↦ elim (lib_callback e loop) [ none ↦ none | some loop' ↦ base_loop ready loop' ]
  ]

-- The loop of `runTask`. `none` when a task throws, or adds a task, which invalidates the iterator.
module _ (perform : ℕ → EventLoopLibevent → Option EventLoopLibevent) where
  unfoldable pub run_tasks : List ℕ → EventLoopLibevent → Option EventLoopLibevent
  run_tasks [] loop = some loop
  run_tasks (task ∷ tasks) loop = elim (perform task loop) [
    | none ↦ none
    | some loop' ↦
        let later = run_tasks tasks loop' in
        if length loop'.pending_factors == length loop.pending_factors then later else none
  ]

  unfoldable pub run_task : EventLoopLibevent → Option EventLoopLibevent
  unfolding run_tasks
  run_task loop = elim (run_tasks loop.pending_factors loop) [
    | none ↦ none
    | some loop' ↦ some (record loop' { pending_factors = [] })
  ]

-- A round of `processEvents`.
unfoldable pub process_events :
    (ℕ → ℕ → EventLoopLibevent → Option EventLoopLibevent)
    → (ℕ → EventLoopLibevent → Option EventLoopLibevent)
    → List ℕ
    → EventLoopLibevent
    → Option EventLoopLibevent
unfolding base_loop run_task
process_events run perform ready loop = elim (base_loop run ready loop) [
  | none ↦ none
  | some loop' ↦ run_task perform loop'
]
