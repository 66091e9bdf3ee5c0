-- ===== src/Libevent/Tests.antt =====
-- Runs of the loop over libevent on small inputs.
use posix_bsp_perf.Prelude.{
  ℕ, ◌≡◌, refl, true, Option, none, some, [], ◌∷◌, map, lookup, insert, erase,
}
use posix_bsp_perf.Registry.{epollin, epollout}
use posix_bsp_perf.Poll.{IoEvent, new_event, set_callback}
use posix_bsp_perf.Libevent.{
  Event, EventLoopLibevent, add_io_event, keep_pointer, free_event, free_one, del_io_event,
  del_io_mask, lib_callback, base_loop,
}
use posix_bsp_perf.Libevent.Readers.{empty_loop}
use posix_bsp_perf.Libevent.Deleting.{Reach, here, add, Left, Reach-del_io_event, Reach-del_io_mask}

abbrev one_reader : EventLoopLibevent
unfolding add_io_event
one_reader = (add_io_event true 5 11 epollin empty_loop).1

one_reader-Reach : Reach one_reader
unfolding one_reader lookup
one_reader-Reach = add 5 11 here refl

Reach-del_io_event_example :
    (loop' : EventLoopLibevent) × (del_io_event 5 one_reader ≡ some loop') × Left 5 one_reader loop'
Reach-del_io_event_example = Reach-del_io_event one_reader 5 one_reader-Reach

abbrev reader : IoEvent
reader = record { mask = epollin; read_callback = some 11; write_callback = none }

Reach-del_io_mask_example : del_io_mask 5 epollin one_reader ≡ none
unfolding one_reader add_io_event lookup insert new_event set_callback
Reach-del_io_mask_example = Reach-del_io_mask one_reader 5 reader one_reader-Reach refl

-- Both directions of a descriptor: delIoEvent(fd) leaves the event for writing with the library.
abbrev left_over : Option EventLoopLibevent
unfolding add_io_event del_io_event
left_over = del_io_event 5 (add_io_event true 5 12 epollout one_reader).1

left_over_events :
    elim left_over [ none ↦ [] | some l ↦ l.events ] ≡ (1, record { fd = 5; what = epollout }) ∷ []
unfolding left_over one_reader add_io_event keep_pointer del_io_event free_one free_event lookup
    insert erase new_event set_callback
left_over_events = refl

-- A descriptor that is added twice for reading has two events.
twice_events :
    map (λ (e : ℕ × Event). e.0) (add_io_event true 5 12 epollin one_reader).1.events ≡ 0 ∷ 1 ∷ []
unfolding one_reader add_io_event insert
twice_events = refl

-- One round calls the callback of each event that is ready.
abbrev note : ℕ → ℕ → EventLoopLibevent → Option EventLoopLibevent
note cb fd loop = some (record loop { pending_factors = cb ∷ loop.pending_factors })

called :
    elim (base_loop note (0 ∷ 7 ∷ []) one_reader) [ none ↦ [] | some l ↦ l.pending_factors ]
    ≡ 11 ∷ []
unfolding one_reader base_loop lib_callback add_io_event lookup insert new_event set_callback
called = refl
