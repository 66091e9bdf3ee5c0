-- ===== src/Timer/Periodic.antt =====
-- Timer ids across `getFiredTimerEvents` of TimerQueue.cpp: a periodic event is added again by
-- `addTimer`, which gives it a new id.
use posix_bsp_perf.Prelude.{
  ℕ, zero, suc, ◌+◌, ◌≤◌, ◌<◌, ◌≡◌, ◌≢◌, refl, inl, inr, arith, none, Option-cases, List, [], ◌∷◌,
  if_elim, lookup,
}
use posix_bsp_perf.Timer.{
  TimerEvent, TimerQueue, Firing, ts_at, id_at, add_timer, add_all, heap_add, push_event, heap_hold,
  heap_pop, move_last_to_root, swap_events, min_pos, rearm_if_earlier, fire_one, fire_loop, is_due,
  settle, del_timer, get_fired_timer_events,
}
use posix_bsp_perf.Timer.Index.{Indexed}
use posix_bsp_perf.Timer.Keep.{rise-next, add_timer-Indexed, heap_pop-Indexed}
use posix_bsp_perf.Timer.Every.{
  Every, heap_pop-Every, heap_pop_rest-Every, heap_add-Every, rearm_if_earlier-Every,
}

-- The id `t` was given out and belongs to no event of the queue.
record Dead (t : ℕ) (q : TimerQueue) : Type 0 where
  indexed : Indexed q
  old : t < q.next_timer_id
  absent : Every (λ te. te.timer_id ≢ t) q

lookup-Dead : (t : ℕ) (q : TimerQueue) → Dead t q → lookup t q.position ≡ none
lookup-Dead t q d = elim (Option-cases (lookup t q.position)) [
  | inl e ↦ e
  | inr (p, e) ↦ let l = d.indexed.live t p e in absurd (d.absent p l.0 l.1)
]

heap_hold-next :
    (fuel : ℕ) (q : TimerQueue) (i : ℕ) → (heap_hold fuel q i).next_timer_id ≡ q.next_timer_id
unfolding heap_hold swap_events
heap_hold-next zero q i = refl
heap_hold-next (suc fuel) q i =
    ground (arith, heap_hold-next fuel (swap_events q (min_pos q i) i) (min_pos q i))

heap_pop-next : (q : TimerQueue) → (heap_pop q).next_timer_id ≡ q.next_timer_id
unfolding heap_pop move_last_to_root
heap_pop-next q = ground (arith, heap_hold-next q.count (move_last_to_root q) 0)

add_timer-next :
    (q : TimerQueue) (te : TimerEvent) → (add_timer q te).1.next_timer_id ≡ q.next_timer_id + 1
unfolding add_timer heap_add push_event rearm_if_earlier
add_timer-next q te =
    let te' = record te { timer_id = q.next_timer_id } in
    let q' = push_event (record q { next_timer_id = q.next_timer_id + 1 }) te' in
    ground (arith, rise-next (q.count + 1) q' q.count)

add_timer-Dead : (t : ℕ) (q : TimerQueue) (te : TimerEvent) → Dead t q → Dead t (add_timer q te).1
unfolding add_timer
add_timer-Dead t q te d = record {
  indexed = add_timer-Indexed q d.indexed te;
  old = omega (arith, add_timer-next q te, d.old);
  absent =
      rearm_if_earlier-Every (λ e. e.timer_id ≢ t) _
        (heap_add-Every (λ e. e.timer_id ≢ t) q (record te { timer_id = q.next_timer_id }) d.indexed
          refl (omega (arith, d.old)) d.absent);
}

add_all-Dead : (t : ℕ) (q : TimerQueue) (tes : List TimerEvent) → Dead t q → Dead t (add_all q tes)
unfolding add_all
add_all-Dead t q [] d = d
add_all-Dead t q (te ∷ tes) d = add_all-Dead t (add_timer q te).1 tes (add_timer-Dead t q te d)

heap_pop-Dead : (t : ℕ) (q : TimerQueue) → Dead t q → Dead t (heap_pop q)
heap_pop-Dead t q d = record {
  indexed = heap_pop-Indexed q d.indexed;
  old = omega (arith, heap_pop-next q, d.old);
  absent = heap_pop-Every (λ e. e.timer_id ≢ t) q d.indexed d.absent;
}

-- `heapPop` retires the id of the first event.
heap_pop_root-Dead :
    (q : TimerQueue) → Indexed q → 0 < q.count → Dead (id_at q.event_list 0) (heap_pop q)
heap_pop_root-Dead q v some_left = record {
  indexed = heap_pop-Indexed q v;
  old = omega (arith, heap_pop-next q, v.fresh 0 some_left);
  absent =
      heap_pop_rest-Every (λ e. e.timer_id ≢ id_at q.event_list 0) q v
        λ i p r e. ground (arith, v.placed i r, v.placed 0 some_left, e);
}

fire_loop-Dead : (fuel t : ℕ) (s : Firing) → Dead t s.queue → Dead t (fire_loop fuel s).queue
unfolding fire_loop
fire_loop-Dead zero t s d = d
fire_loop-Dead (suc fuel) t s d =
    if_elim (λ (r : Firing). Dead t r.queue) (is_due s.queue)
      (λ due. fire_loop-Dead fuel t (fire_one s) (unfold fire_one in heap_pop-Dead t s.queue d))
      (λ done. d)

settle-Dead : (t : ℕ) (q : TimerQueue) → Dead t q → Dead t (settle q)
unfolding settle
settle-Dead t q d = record {
  indexed = record {
    size = d.indexed.size;
    placed = d.indexed.placed;
    live = d.indexed.live;
    fresh = d.indexed.fresh;
  };
  old = d.old;
  absent = d.absent;
}

abbrev start : TimerQueue → Firing
start q = record { queue = q; fired = []; reuse = [] }

first_fired-Dead :
    (fuel : ℕ) (q : TimerQueue)
    → Indexed q
    → 0 < q.count
    → q.count ≤ fuel
    → q.pioneer ≡ ts_at q.event_list 0
    → Dead (id_at q.event_list 0) (fire_loop fuel (start q)).queue
unfolding fire_loop
first_fired-Dead zero q v some_left f due = absurd (omega arith)
first_fired-Dead (suc fuel) q v some_left f due =
    let t = id_at q.event_list 0 in
    if_elim (λ (r : Firing). Dead t r.queue) (is_due q)
      (λ d.
        fire_loop-Dead fuel t (fire_one (start q))
          (unfold fire_one in heap_pop_root-Dead q v some_left))
      (λ not_due. absurd (ground arith))

-- Once the first event of an indexed queue has fired, its id is no timer's any more, also if it is
-- periodic: deleting the timer by that id dereferences the null logger.
pub del_timer-get_fired_timer_events :
    (q : TimerQueue)
    → Indexed q
    → 0 < q.count
    → q.pioneer ≡ ts_at q.event_list 0
    → del_timer (get_fired_timer_events q).1 (id_at q.event_list 0) ≡ none
unfolding del_timer get_fired_timer_events
del_timer-get_fired_timer_events q v some_left due =
    let t = id_at q.event_list 0 in
    let s = fire_loop q.count (start q) in
    let d = first_fired-Dead q.count q v some_left (omega arith) due in
    rw (
      lookup-Dead t (settle (add_all s.queue s.reuse))
          (settle-Dead t _ (add_all-Dead t s.queue s.reuse d)),
      del_timer,
    )
