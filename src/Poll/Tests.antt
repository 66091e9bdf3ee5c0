-- ===== src/Poll/Tests.antt =====
-- Runs of the poll loop on small inputs.
use posix_bsp_perf.Prelude.{
  ℕ, ◌≡◌, refl, true, false, Option, none, some, [], ◌∷◌, map, lookup, insert, OnSome, arith,
}
use posix_bsp_perf.Registry
use posix_bsp_perf.Registry.{Mask, Registry, epollin, epollout, interest}
use posix_bsp_perf.Poll.{
  Revents, EventLoopPoll, new_event, set_callback, add_io_event, del_io_mask, del_io_event,
  for_loop,
}
use posix_bsp_perf.Poll.Entries.{events_of}
use posix_bsp_perf.Poll.Synced.{
  Synced, add_io_event-Synced, del_io_mask-Synced, del_io_event-Synced,
}
use posix_bsp_perf.Poll.Refine.{watched, Refines, add_io_event-Refines, del_io_mask-Refines}
use posix_bsp_perf.Poll.Round.{Rounds, for_loop-Synced}

abbrev quiet : Revents
quiet = record { readable = false; writable = false; hung = false }

abbrev no_events : EventLoopPoll
no_events = record { fds = []; io_events = []; pending_factors = []; listening = [] }

no_events-Synced : Synced no_events
unfolding lookup events_of
no_events-Synced = record { same = λ g. refl; single = tt; heard = λ g. refl; room = omega arith }

abbrev one_event : EventLoopPoll
unfolding add_io_event lookup insert new_event set_callback
one_event = elim (add_io_event quiet 5 11 epollin no_events) [ none ↦ no_events | some l ↦ l ]

-- Its one entry answers readable.
abbrev fired_event : EventLoopPoll
unfolding one_event
fired_event = elim (add_io_event (record quiet { readable = true }) 5 11 epollin no_events) [
  | none ↦ no_events
  | some l ↦ l
]

one_event_fds : map (λ p. p.fd) one_event.fds ≡ 5 ∷ []
unfolding one_event
one_event_fds = refl

add_io_event-Synced_run : Synced one_event
unfolding one_event
add_io_event-Synced_run =
    add_io_event-Synced 5 no_events no_events-Synced quiet 11 epollin one_event refl

del_io_mask-Synced_example : Synced (del_io_mask 5 epollin one_event)
del_io_mask-Synced_example = del_io_mask-Synced 5 one_event add_io_event-Synced_run epollin

no_events-Refines : Refines [] no_events
unfolding interest watched lookup
no_events-Refines g = refl

add_io_event-Refines_run : Refines (Registry.add_io_event 5 epollin []) one_event
unfolding one_event
add_io_event-Refines_run =
    add_io_event-Refines 5 [] no_events no_events-Refines quiet 11 epollin one_event refl

del_io_mask-Refines_run :
    Refines
      (Registry.del_io_mask 5 epollout (Registry.add_io_event 5 epollin []))
      (del_io_mask 5 epollout one_event)
del_io_mask-Refines_run =
    del_io_mask-Refines 5 (Registry.add_io_event 5 epollin []) one_event add_io_event-Refines_run
      epollout

-- A callback that deletes its descriptor.
abbrev drop_own : ℕ → ℕ → EventLoopPoll → Option EventLoopPoll
drop_own cb fd loop = some (del_io_event fd loop)

fired_event-Synced : Synced fired_event
unfolding fired_event
fired_event-Synced =
    add_io_event-Synced 5 no_events no_events-Synced (record quiet { readable = true }) 11 epollin
      fired_event refl

for_loop-Synced_example :
    (end : Option EventLoopPoll) × (for_loop drop_own 1025 0 fired_event ≡ some end)
    × Rounds drop_own (λ cb fd loop s. del_io_event-Synced fd loop s) 0 fired_event end
    × OnSome Synced end
for_loop-Synced_example =
    for_loop-Synced drop_own (λ cb fd loop s. del_io_event-Synced fd loop s) 1025 0 fired_event
      fired_event-Synced (omega arith) (omega arith)
