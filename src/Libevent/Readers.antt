-- ===== src/Libevent/Readers.antt =====
-- EventLoopLibevent.cpp, when every descriptor is registered for reading, and only while it is not
-- registered: the events of the library and the two tables of the loop.
use posix_bsp_perf.Prelude.{
  ℕ, ◌+◌, ◌≤◌, ◌≡◌, refl, sym, ap, ◌∙◌, true, none, some, inl, inr, [], false, lookup, insert,
  lookup-insert, ◌==◌, Bool-cases, arith, ==-refl,
}
use posix_bsp_perf.Registry.{epollin}
use posix_bsp_perf.Poll.{IoEvent, new_event}
use posix_bsp_perf.Libevent.Tables.{insert_here, insert_there}
use posix_bsp_perf.Libevent.{
  LibeventIoEvent, Event, EventLoopLibevent, find_pointers, keep_pointer, add_io_event,
}

abbrev pub reading : ℕ → Event
reading fd = record { fd = fd; what = epollin }

abbrev pub only_reads : ℕ → LibeventIoEvent
only_reads id = record { event_for_read = some id; event_for_write = none }

-- The event of a registered descriptor.
pub record Watched (fd : ℕ) (ev : IoEvent) (loop : EventLoopLibevent) : Type 0 where
  pub id : ℕ
  pub mask : ev.mask ≡ epollin
  pub pointer : lookup fd loop.libevent_io_events ≡ some (only_reads id)
  pub event : lookup id loop.events ≡ some (reading fd)

pub record Owned (id fd : ℕ) (loop : EventLoopLibevent) : Type 0 where
  pub ev : IoEvent
  pub registered : lookup fd loop.io_events ≡ some ev
  pub pointer : lookup fd loop.libevent_io_events ≡ some (only_reads id)

-- Each registered descriptor has an event, each event has a registered descriptor, and the pointers lead
-- from the one to the other.
pub record IsReading (loop : EventLoopLibevent) : Type 0 where
  pub fresh : (id : ℕ) → loop.next_event ≤ id → lookup id loop.events ≡ none
  pub watched : (fd : ℕ) (ev : IoEvent) → lookup fd loop.io_events ≡ some ev → Watched fd ev loop
  pub owned : (id : ℕ) (e : Event) → lookup id loop.events ≡ some e → Owned id e.fd loop
  pub lone : (fd : ℕ) → (find_pointers (lookup fd loop.libevent_io_events)).event_for_write ≡ none

abbrev pub empty_loop : EventLoopLibevent
empty_loop = record {
  io_events = [];
  listening = [];
  libevent_io_events = [];
  events = [];
  next_event = 0;
  pending_factors = [];
}

pub empty_loop-IsReading : IsReading empty_loop
unfolding lookup
empty_loop-IsReading = record {
  fresh = λ id h. refl;
  watched = λ fd ev e. absurd cc;
  owned = λ id e q. absurd cc;
  lone = λ fd. refl;
}

-- A descriptor that is not registered is registered for reading.
module _ (fd proc : ℕ) (loop : EventLoopLibevent) (w : IsReading loop) where
  abbrev added : EventLoopLibevent
  unfolding new_event
  added = record loop {
    io_events = insert fd (new_event (lookup fd loop.io_events) epollin proc) loop.io_events;
    libevent_io_events = insert fd (only_reads loop.next_event) loop.libevent_io_events;
    events = insert loop.next_event (reading fd) loop.events;
    next_event = loop.next_event + 1;
  }

  added-Watched :
      (g : ℕ) (ev : IoEvent)
      → lookup fd loop.io_events ≡ none
      → lookup g added.io_events ≡ some ev
      → Watched g ev added
  unfolding new_event added
  added-Watched g ev absent e =
      let n = loop.next_event in
      let new = new_event (lookup fd loop.io_events) epollin proc in
      elim (Bool-cases (fd == g)) [
        | inl same ↦
            let at : fd ≡ g = ground (arith, same) in
            let it : some new ≡ some ev = sym (insert_here loop.io_events fd g new same) ∙ e in
            let told : new.mask ≡ epollin = rw (absent, new_event) refl in
            let one : new ≡ ev = cc in
            record {
              id = n;
              mask = ap (λ x. x.mask) (sym one) ∙ told;
              pointer = insert_here loop.libevent_io_events fd g (only_reads n) same;
              event =
                  insert_here loop.events n n (reading fd) (==-refl n)
                  ∙ ap (λ x. some (reading x)) at;
            }
        | inr other ↦
            let v = w.watched g ev (sym (insert_there loop.io_events fd g new other) ∙ e) in
            let apart : (n == v.id) ≡ false = ground (arith, w.fresh v.id, v.event) in
            record {
              id = v.id;
              mask = v.mask;
              pointer = insert_there loop.libevent_io_events fd g (only_reads n) other ∙ v.pointer;
              event = insert_there loop.events n v.id (reading fd) apart ∙ v.event;
            }
      ]

  added-Owned :
      (id : ℕ) (e : Event)
      → lookup fd loop.io_events ≡ none
      → lookup id added.events ≡ some e
      → Owned id e.fd added
  unfolding new_event added
  added-Owned id e absent q =
      let n = loop.next_event in
      let new = new_event (lookup fd loop.io_events) epollin proc in
      elim (Bool-cases (n == id)) [
        | inl same ↦
            let at : n ≡ id = ground (arith, same) in
            let it : some (reading fd) ≡ some e =
              sym (insert_here loop.events n id (reading fd) same) ∙ q in
            let one : reading fd ≡ e = cc in
            let on : fd ≡ e.fd = ap (λ x. x.fd) one in
            let hit : (fd == e.fd) ≡ true = ap (λ x. fd == x) (sym on) ∙ ==-refl fd in
            record {
              ev = new;
              registered = insert_here loop.io_events fd e.fd new hit;
              pointer =
                  insert_here loop.libevent_io_events fd e.fd (only_reads n) hit
                  ∙ ap (λ x. some (only_reads x)) at;
            }
        | inr other ↦
            let v = w.owned id e (sym (insert_there loop.events n id (reading fd) other) ∙ q) in
            let apart : (fd == e.fd) ≡ false = ground (arith, absent, v.registered) in
            record {
              ev = v.ev;
              registered = insert_there loop.io_events fd e.fd new apart ∙ v.registered;
              pointer =
                  insert_there loop.libevent_io_events fd e.fd (only_reads n) apart ∙ v.pointer;
            }
      ]

  pub add_io_event-IsReading :
      lookup fd loop.io_events ≡ none → IsReading (add_io_event true fd proc epollin loop).1
  unfolding add_io_event keep_pointer new_event added
  add_io_event-IsReading absent =
      let n = loop.next_event in
      let alone : record (find_pointers (lookup fd loop.libevent_io_events)) {
        event_for_read = some n;
      }
          ≡ only_reads n =
        ap (λ o. record { event_for_read = some n; event_for_write = o }) (w.lone fd) in
      rw (alone) (record {
        fresh = λ id h. ground (arith, lookup-insert n id (reading fd) loop.events, w.fresh id);
        watched = λ g ev e. added-Watched g ev absent e;
        owned = λ id e q. added-Owned id e absent q;
        lone = λ g. elim (Bool-cases (fd == g)) [
          | inl same ↦
              ap (λ o. (find_pointers o).event_for_write)
                (insert_here loop.libevent_io_events fd g (only_reads n) same)
          | inr other ↦
              ap (λ o. (find_pointers o).event_for_write)
                (insert_there loop.libevent_io_events fd g (only_reads n) other)
              ∙ w.lone g
        ];
      })
