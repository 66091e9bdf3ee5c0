-- ===== src/Timer/Keep.antt =====
-- Every operation of TimerQueue.cpp keeps the position map exact.
use posix_bsp_perf.Prelude.{
  ℕ, zero, suc, ◌+◌, ◌-◌, ◌/◌, ◌<◌, ◌≡◌, ◌⊎◌, refl, subst, inl, inr, Option-cases, List, [], ◌∷◌,
  some, none, arith, ap, ltb, ltb→lt, ==→ne, if_elim, ◌==◌, lookup, lookup-erase,
}
use mathlib.Core.Option.{Option, some-injective}
use posix_bsp_perf.Timer.{
  TimerEvent, TimeSpec, TimerQueue, Firing, init, ts_at, id_at, swap_events, push_event, rise,
  heap_add, add_timer, rearm_if_earlier, min_pos, heap_hold, heap_del, heap_pop, rearm_after_del,
  del_timer, fire_one, fire_loop, add_all, settle, get_fired_timer_events, is_due,
}
use posix_bsp_perf.Timer.Index.{
  Indexed, swap_events-Indexed, count-swap_events, next_id-swap_events, push_event-Indexed,
  move_last_to-Indexed, move_last_to_root-Indexed,
}

ruleset keeps = (arith, count-swap_events, next_id-swap_events)

rise-Indexed :
    (fuel : ℕ) (q : TimerQueue) (curr : ℕ) → Indexed q → curr < q.count → Indexed (rise fuel q curr)
unfolding rise
rise-Indexed zero q curr v h = v
rise-Indexed (suc fuel) q curr v h =
    let prev = (curr - 1) / 2 in
    if_elim Indexed (ltb (ts_at q.event_list curr) (ts_at q.event_list prev))
      (λ less.
        rise-Indexed fuel (swap_events q curr prev) prev
          (swap_events-Indexed q v curr prev h (omega arith)
            (λ e. ground (arith, ap (ts_at q.event_list) e)))
          (omega (arith, count-swap_events q curr prev)))
      (λ done. v)

pub rise-count : (fuel : ℕ) (q : TimerQueue) (curr : ℕ) → (rise fuel q curr).count ≡ q.count
unfolding rise swap_events
rise-count zero q curr = refl
rise-count (suc fuel) q curr =
    let prev = (curr - 1) / 2 in ground (arith, rise-count fuel (swap_events q curr prev) prev)

pub rise-next :
    (fuel : ℕ) (q : TimerQueue) (curr : ℕ) → (rise fuel q curr).next_timer_id ≡ q.next_timer_id
unfolding rise swap_events
rise-next zero q curr = refl
rise-next (suc fuel) q curr =
    let prev = (curr - 1) / 2 in ground (arith, rise-next fuel (swap_events q curr prev) prev)

-- The position that an event sinks to is its own or a child's.
pub min_pos_cases :
    (q : TimerQueue) (pos : ℕ)
    → (min_pos q pos ≡ pos) ⊎ ((pos < min_pos q pos) × (min_pos q pos < q.count))
unfolding min_pos
min_pos_cases q pos = ground arith

pub heap_hold-Indexed :
    (fuel : ℕ) (q : TimerQueue) (pos : ℕ) → Indexed q → Indexed (heap_hold fuel q pos)
unfolding heap_hold
heap_hold-Indexed zero q pos v = v
heap_hold-Indexed (suc fuel) q pos v =
    let m = min_pos q pos in
    if_elim Indexed (m == pos) (λ same. v)
      λ moved.
        let cases = min_pos_cases q pos in
        heap_hold-Indexed fuel (swap_events q m pos) m (
          swap_events-Indexed q v m pos (ground (arith, cases)) (ground (arith, cases))
            (==→ne m pos moved))

pub heap_hold-count : (fuel : ℕ) (q : TimerQueue) (pos : ℕ) → (heap_hold fuel q pos).count ≡ q.count
unfolding heap_hold swap_events
heap_hold-count zero q pos = refl
heap_hold-count (suc fuel) q pos =
    ground (arith, heap_hold-count fuel (swap_events q (min_pos q pos) pos) (min_pos q pos))

-- The alarm is no part of the heap.
alarm-Indexed :
    (q : TimerQueue) (p : ℕ) (a : TimeSpec)
    → Indexed q
    → Indexed (record q { pioneer = p; alarm = a })
alarm-Indexed q p a v = record { size = v.size; placed = v.placed; live = v.live; fresh = v.fresh }

rearm_if_earlier-Indexed : (q : TimerQueue) → Indexed q → Indexed (rearm_if_earlier q)
unfolding rearm_if_earlier
rearm_if_earlier-Indexed q v =
    if_elim Indexed (ltb (ts_at q.event_list 0) q.pioneer) (λ _. alarm-Indexed q _ _ v) (λ _. v)

rearm_after_del-Indexed : (q : TimerQueue) → Indexed q → Indexed (rearm_after_del q)
unfolding rearm_after_del
rearm_after_del-Indexed q v =
    if_elim Indexed (q.count == 0) (λ _. alarm-Indexed q _ _ v) (λ _. rearm_if_earlier-Indexed q v)

module _ (q : TimerQueue) (v : Indexed q) where
  -- Adding a timer to a queue whose position map is exact, with unused ids to come, leaves it so.
  pub add_timer-Indexed : (te : TimerEvent) → Indexed (add_timer q te).1
  unfolding add_timer heap_add
  add_timer-Indexed te =
      let te' = record te { timer_id = q.next_timer_id } in
      let q' = push_event (record q { next_timer_id = q.next_timer_id + 1 }) te' in
      let w =
        rise-Indexed (q.count + 1) q' q.count (push_event-Indexed q te' v refl)
          (unfold push_event in omega arith) in
      rearm_if_earlier-Indexed _ w

  pub heap_del-Indexed : (pos : ℕ) → pos < q.count → Indexed (heap_del q pos)
  unfolding heap_del
  heap_del-Indexed pos h = heap_hold-Indexed q.count _ pos (move_last_to-Indexed q v pos h)

  pub heap_pop-Indexed : Indexed (heap_pop q)
  unfolding heap_pop
  heap_pop-Indexed =
      if_elim Indexed (q.count == 0) (λ _. v)
        λ some_left.
          if_elim Indexed (ltb 1 q.count)
            (λ many.
              heap_hold-Indexed q.count _ 0 (move_last_to_root-Indexed q v (ltb→lt 1 q.count many)))
            (λ one. record {
              size = refl;
              placed = λ i h. absurd (omega arith);
              live = λ t p e. ground (
                arith,
                lookup-erase (id_at q.event_list 0) t q.position,
                v.live t p,
                λ (e : p ≡ 0). ap (id_at q.event_list) e,
              );
              fresh = λ i h. absurd (omega arith);
            })

-- Deleting a timer from a queue whose position map is exact leaves it so, if the call returns.
pub del_timer-Indexed :
    (q q' : TimerQueue) (t : ℕ) → Indexed q → del_timer q t ≡ some q' → Indexed q'
unfolding del_timer
del_timer-Indexed q q' t v e = elim (Option-cases (lookup t q.position)) [
  | inl missing ↦
      let crash : ◌≡◌ {A = Option TimerQueue} none (some q') = rw (missing, del_timer) at e in cc
  | inr (pos, found) ↦
      subst Indexed (some-injective _ _ (rw (found, del_timer) at e))
        (rearm_after_del-Indexed _ (heap_del-Indexed q v pos (v.live t pos found).0))
]

pub init-Indexed : Indexed init
unfolding init lookup
init-Indexed = record {
  size = refl;
  placed = λ i h. absurd (omega arith);
  live = λ t p e. cc;
  fresh = λ i h. absurd (omega arith);
}

pub add_all-Indexed : (q : TimerQueue) (tes : List TimerEvent) → Indexed q → Indexed (add_all q tes)
unfolding add_all
add_all-Indexed q [] v = v
add_all-Indexed q (te ∷ tes) v = add_all-Indexed (add_timer q te).1 tes (add_timer-Indexed q v te)

fire_loop-Indexed : (fuel : ℕ) (s : Firing) → Indexed s.queue → Indexed (fire_loop fuel s).queue
unfolding fire_loop
fire_loop-Indexed zero s v = v
fire_loop-Indexed (suc fuel) s v =
    if_elim (λ (r : Firing). Indexed r.queue) (is_due s.queue)
      (λ due. fire_loop-Indexed fuel (fire_one s) (unfold fire_one in heap_pop-Indexed s.queue v))
      (λ done. v)

-- settling touches no event
settle-Indexed : (q : TimerQueue) → Indexed q → Indexed (settle q)
unfolding settle
settle-Indexed q v = alarm-Indexed q _ _ v

pub get_fired_timer_events-Indexed :
    (q : TimerQueue) → Indexed q → Indexed (get_fired_timer_events q).1
unfolding get_fired_timer_events
get_fired_timer_events-Indexed q v =
    settle-Indexed _ (add_all-Indexed _ _ (fire_loop-Indexed q.count _ v))
