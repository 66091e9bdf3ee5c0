-- ===== src/Poll.antt =====
-- bsp/bsp_sockets/impl/EventLoopPoll.cpp: the event loop over poll(2). The first `m_nfds` entries
-- of the array `m_fds` are the list `fds`; the array has room for 1024, and a write behind it is a
-- fault, `none`. A callback or a task, with its arguments, is a handle, and what it does to the loop
-- is the parameter `run`. EPOLLIN and EPOLLOUT have the values of POLLIN and POLLOUT, so translating
-- a mask changes nothing.
pub mod Entries
pub mod Synced
pub mod Refine
pub mod Round
mod Tests
use posix_bsp_perf.Prelude.{
  ℕ, zero, suc, Bool, true, false, Option, none, some, List, [], ◌∷◌, ◌++◌, Map, lookup, insert,
  erase, length, ltb, ◌==◌, if◌then◌else◌,
}
use posix_bsp_perf.Registry.{Mask, no_mask, mask_or, mask_without, is_zero}

abbrev pub max_fds : ℕ
max_fds = 1024

-- A null callback is `none`.
pub record IoEvent : Type 0 where
  pub mask : Mask
  pub read_callback : Option ℕ
  pub write_callback : Option ℕ

abbrev pub no_event : IoEvent
no_event = record { mask = no_mask; read_callback = none; write_callback = none }

-- The bits POLLIN and POLLOUT of `revents`, and whether POLLHUP or POLLERR is set.
pub record Revents : Type 0 where
  pub readable : Bool
  pub writable : Bool
  pub hung : Bool

pub record PollFd : Type 0 where
  pub fd : ℕ
  pub events : Mask
  pub revents : Revents

pub record EventLoopPoll : Type 0 where
  pub fds : List PollFd
  pub io_events : Map IoEvent
  pub pending_factors : List ℕ
  pub listening : Map (Unit {0})

-- `m_fds[i].events = f_mask` at the first entry of the descriptor.
unfoldable pub set_events : ℕ → Mask → List PollFd → List PollFd
set_events fd mask [] = []
set_events fd mask (p ∷ ps) =
    let rest = set_events fd mask ps in
    if p.fd == fd then record p { events = mask } ∷ ps else p ∷ rest

-- The shift to the left that takes out the first entry of the descriptor.
unfoldable pub remove_fd : ℕ → List PollFd → List PollFd
remove_fd fd [] = []
remove_fd fd (p ∷ ps) = let rest = remove_fd fd ps in if p.fd == fd then ps else p ∷ rest

abbrev pub find_event : Option IoEvent → IoEvent
find_event none = no_event
find_event (some ev) = ev

unfoldable pub set_callback : Mask → ℕ → IoEvent → IoEvent
set_callback mask proc ev =
    if mask.reads
    then record ev { read_callback = some proc }
    else if mask.writes
    then record ev { write_callback = some proc }
    else ev

-- The event of a descriptor once `proc` is added to it.
unfoldable pub new_event : Option IoEvent → Mask → ℕ → IoEvent
unfolding set_callback
new_event found mask proc = record (set_callback mask proc (find_event found)) {
  mask = mask_or (find_event found).mask mask;
}

-- `stale` is what the local `pollfd` held in `revents`, which `addIoEvent` does not set.
unfoldable pub add_io_event : Revents → ℕ → ℕ → Mask → EventLoopPoll → Option EventLoopPoll
unfolding new_event set_events
add_io_event stale fd proc mask loop =
    let ev = new_event (lookup fd loop.io_events) mask proc in
    let registered = record loop {
      io_events = insert fd ev loop.io_events;
      listening = insert fd tt loop.listening;
    } in
    elim (lookup fd loop.io_events) [
      | none ↦
          if ltb (length loop.fds) max_fds
          then (some (record registered {
            fds = loop.fds ++ record { fd = fd; events = ev.mask; revents = stale } ∷ [];
          }))
          else none
      | some old ↦ some (record registered { fds = set_events fd ev.mask loop.fds })
    ]

-- `delIoEvent(fd)`
unfoldable pub del_io_event : ℕ → EventLoopPoll → EventLoopPoll
unfolding remove_fd
del_io_event fd loop = elim (lookup fd loop.io_events) [
  | none ↦ loop
  | some ev ↦ record loop {
    fds = remove_fd fd loop.fds;
    io_events = erase fd loop.io_events;
    listening = erase fd loop.listening;
  }
]

-- `delIoEvent(fd, mask)`
unfoldable pub del_io_mask : ℕ → Mask → EventLoopPoll → EventLoopPoll
unfolding remove_fd set_events
del_io_mask fd mask loop = elim (lookup fd loop.io_events) [
  | none ↦ loop
  | some ev ↦
      let left = mask_without ev.mask mask in
      if is_zero left
      then (record loop {
        fds = remove_fd fd loop.fds;
        io_events = erase fd loop.io_events;
        listening = erase fd loop.listening;
      })
      else (record loop {
        fds = set_events fd left loop.fds;
        io_events = insert fd (record ev { mask = left }) loop.io_events;
      })
]

abbrev pub add_task : ℕ → EventLoopPoll → EventLoopPoll
add_task task loop = record loop { pending_factors = loop.pending_factors ++ task ∷ [] }

-- What `poll` writes: the answer for each entry.
unfoldable pub set_revents : (ℕ → Revents) → List PollFd → List PollFd
set_revents answers [] = []
set_revents answers (p ∷ ps) = record p { revents = answers p.fd } ∷ set_revents answers ps

unfoldable pub entry : List PollFd → ℕ → Option PollFd
entry [] i = none
entry (p ∷ ps) zero = some p
entry (p ∷ ps) (suc i) = entry ps i

module _ (run : ℕ → ℕ → EventLoopPoll → Option EventLoopPoll) where
  -- Calling a null callback throws.
  abbrev pub call : Option ℕ → ℕ → EventLoopPoll → Option EventLoopPoll
  call none fd loop = none
  call (some cb) fd loop = run cb fd loop

  -- The callback that the events of one descriptor lead to.
  unfoldable pub dispatch : PollFd → IoEvent → EventLoopPoll → Option EventLoopPoll
  unfolding del_io_event
  dispatch p ev loop =
      if p.revents.readable
      then call ev.read_callback p.fd loop
      else if p.revents.writable
      then call ev.write_callback p.fd loop
      else if p.revents.hung
      then elim ev.read_callback [
        | some cb ↦ run cb p.fd loop
        | none ↦ elim ev.write_callback [
          | some cb ↦ run cb p.fd loop
          | none ↦ some (del_io_event p.fd loop)
        ]
      ]
      else some loop

  -- `none` is a failed assertion: an entry without an event.
  unfoldable pub visit : PollFd → EventLoopPoll → Option EventLoopPoll
  visit p loop = elim (lookup p.fd loop.io_events) [ none ↦ none | some ev ↦ dispatch p ev loop ]

  -- The `for` loop of `processEvents` from index `i`. The callbacks change the array under it; the
  -- outer `none` is fuel that ran out.
  unfoldable pub for_loop : ℕ → ℕ → EventLoopPoll → Option (Option EventLoopPoll)
  for_loop zero i loop = none
  for_loop (suc fuel) i loop = elim (entry loop.fds i) [
    | none ↦ some (some loop)
    | some p ↦ elim (visit p loop) [ none ↦ some none | some loop' ↦ for_loop fuel (suc i) loop' ]
  ]

-- The loop of `runTask`. `none` when a task throws, or adds a task, which invalidates the iterator.
module _ (perform : ℕ → EventLoopPoll → Option EventLoopPoll) where
  unfoldable pub run_tasks : List ℕ → EventLoopPoll → Option EventLoopPoll
  run_tasks [] loop = some loop
  run_tasks (task ∷ tasks) loop = elim (perform task loop) [
    | none ↦ none
    | some loop' ↦
        let later = run_tasks tasks loop' in
        if length loop'.pending_factors == length loop.pending_factors then later else none
  ]

  unfoldable pub run_task : EventLoopPoll → Option EventLoopPoll
  unfolding run_tasks
  run_task loop = elim (run_tasks loop.pending_factors loop) [
    | none ↦ none
    | some loop' ↦ some (record loop' { pending_factors = [] })
  ]
