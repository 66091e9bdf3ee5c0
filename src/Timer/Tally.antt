-- ===== src/Timer/Tally.antt =====
-- How many events of TimerQueue.cpp pass a test: the heap operations move events and lose none.
use posix_bsp_perf.Prelude.{
  ℕ, zero, suc, ◌+◌, ◌-◌, ◌<◌, ◌≡◌, refl, ap, ◌∙◌, Bool, List, [], ◌∷◌, ◌++◌, arith, ltb, ltb→lt,
  ◌==◌, ==→ne, if◌then◌else◌, if_elim, length, set, drop_last, length-set, get_or,
}
use posix_bsp_perf.Timer.{
  TimerEvent, TimerQueue, Firing, event_at, ts_at, swap_events, rise, min_pos, heap_hold, heap_pop,
  move_last_to_root, heap_add, push_event, add_timer, add_all, fire_one, fire_loop, is_due,
}
use posix_bsp_perf.Timer.Events.{event_at-set}
use posix_bsp_perf.Timer.Index.{
  Indexed, count-swap_events, move_last_to_root-Indexed, swap_events-Indexed, push_event-Indexed,
}
use posix_bsp_perf.Timer.Keep.{min_pos_cases, heap_pop-Indexed, add_timer-Indexed}
use posix_bsp_perf.Timer.Every.{rearm_event_list}
use posix_bsp_perf.Timer.Order.{parent}

abbrev pub one_if : Bool → ℕ
one_if b = if b then 1 else 0

module _ (test : TimerEvent → Bool) where
  abbrev pub weight : TimerEvent → ℕ
  weight te = one_if (test te)

  -- The events of the list that pass.
  abbrev pub tally : List TimerEvent → ℕ
  tally [] = 0
  tally (te ∷ tes) = weight te + tally tes

  -- The id of a timer does not matter.
  abbrev pub PassesAnyId : Type 0
  PassesAnyId = (te : TimerEvent) (id : ℕ) → test (record te { timer_id = id }) ≡ test te

  pub tally-append : (xs ys : List TimerEvent) → tally (xs ++ ys) ≡ tally xs + tally ys
  tally-append [] ys = omega arith
  tally-append (x ∷ xs) ys = omega (arith, tally-append xs ys)

  tally-set :
      (l : List TimerEvent) (i : ℕ) (te : TimerEvent)
      → i < length l
      → tally (set l i te) + weight (event_at l i) ≡ tally l + weight te
  unfolding set event_at get_or
  tally-set [] i te h = absurd (omega arith)
  tally-set (x ∷ l) zero te h = omega arith
  tally-set (x ∷ l) (suc i) te h = omega (arith, tally-set l i te (omega arith))

  tally-drop_last :
      (l : List TimerEvent)
      → 0 < length l
      → tally (drop_last l) + weight (event_at l (length l - 1)) ≡ tally l
  unfolding drop_last event_at get_or
  tally-drop_last [] h = absurd (omega arith)
  tally-drop_last (x ∷ []) h =
      let place : length (x ∷ []) - 1 ≡ 0 = omega arith in
      omega (arith, ap (λ k. weight (event_at (x ∷ []) k)) place)
  tally-drop_last (x ∷ (y ∷ l)) h =
      let rest = tally-drop_last (y ∷ l) (omega arith) in
      let place : length (x ∷ (y ∷ l)) - 1 ≡ suc (length (y ∷ l) - 1) = omega arith in
      omega (arith, rest, ap (λ k. weight (event_at (x ∷ (y ∷ l)) k)) place)

  tally-swap_events :
      (q : TimerQueue) (i j : ℕ)
      → i < length q.event_list
      → j < length q.event_list
      → tally (swap_events q i j).event_list ≡ tally q.event_list
  unfolding swap_events
  tally-swap_events q i j hi hj =
      let l = q.event_list in
      let l1 = set l i (event_at l j) in
      let long = length-set l i (event_at l j) in
      let first = tally-set l i (event_at l j) hi in
      let second = tally-set l1 j (event_at l i) (omega (arith, hj, long)) in
      let same : event_at l1 j ≡ event_at l j =
        event_at-set l i j (event_at l j) hi
        ∙ if_elim (λ x. x ≡ event_at l j) (i == j) (λ e. refl) (λ e. refl) in
      omega (arith, first, second, ap weight same)

  tally-heap_hold :
      (fuel : ℕ) (q : TimerQueue) (i : ℕ)
      → Indexed q
      → tally (heap_hold fuel q i).event_list ≡ tally q.event_list
  unfolding heap_hold
  tally-heap_hold zero q i v = refl
  tally-heap_hold (suc fuel) q i v =
      let m = min_pos q i in
      if_elim (λ (r : TimerQueue). tally r.event_list ≡ tally q.event_list) (m == i) (λ same. refl)
        λ moved.
          let cases = min_pos_cases q i in
          let hm : m < q.count = ground (arith, cases) in
          let hi : i < q.count = ground (arith, cases) in
          tally-heap_hold fuel (swap_events q m i) m
            (swap_events-Indexed q v m i hm hi (==→ne m i moved))
          ∙ tally-swap_events q m i (omega (arith, v.size, hm)) (omega (arith, v.size, hi))

  tally-rise :
      (fuel : ℕ) (q : TimerQueue) (i : ℕ)
      → Indexed q
      → i < q.count
      → tally (rise fuel q i).event_list ≡ tally q.event_list
  unfolding rise
  tally-rise zero q i v h = refl
  tally-rise (suc fuel) q i v h =
      if_elim (λ (r : TimerQueue). tally r.event_list ≡ tally q.event_list)
        (ltb (ts_at q.event_list i) (ts_at q.event_list (parent i)))
        (λ less.
          tally-rise fuel (swap_events q i (parent i)) (parent i)
            (swap_events-Indexed q v i (parent i) h (omega arith)
              (λ e. ground (arith, ap (ts_at q.event_list) e)))
            (omega (arith, count-swap_events q i (parent i)))
          ∙ tally-swap_events q i (parent i) (omega (arith, v.size, h)) (omega (arith, v.size, h)))
        (λ done. refl)

  tally-move_last_to_root :
      (q : TimerQueue)
      → Indexed q
      → 1 < q.count
      → tally (move_last_to_root q).event_list + weight (event_at q.event_list 0)
        ≡ tally q.event_list
  unfolding move_last_to_root
  tally-move_last_to_root q v h =
      let l = q.event_list in
      let last = event_at l (q.count - 1) in
      let l1 = set l 0 last in
      let long = length-set l 0 last in
      let first = tally-set l 0 last (omega (arith, v.size, h)) in
      let cut = tally-drop_last l1 (omega (arith, long, v.size, h)) in
      let end : length l1 - 1 ≡ q.count - 1 = omega (arith, long, v.size) in
      let same : event_at l1 (q.count - 1) ≡ last =
        event_at-set l 0 (q.count - 1) last (omega (arith, v.size, h))
        ∙ if_elim (λ x. x ≡ last) (0 == q.count - 1) (λ e. refl) (λ e. refl) in
      omega (arith, first, cut, ap (λ k. weight (event_at l1 k)) end, ap weight same)

  one_event : (l : List TimerEvent) → length l ≡ 1 → weight (event_at l 0) ≡ tally l
  unfolding event_at get_or
  one_event [] h = absurd (omega arith)
  one_event (x ∷ []) h = omega arith
  one_event (x ∷ (y ∷ l)) h = absurd (omega arith)

  tally-heap_pop :
      (q : TimerQueue)
      → Indexed q
      → 0 < q.count
      → tally (heap_pop q).event_list + weight (event_at q.event_list 0) ≡ tally q.event_list
  unfolding heap_pop
  tally-heap_pop q v h =
      let IsLess = λ (r : TimerQueue).
        tally r.event_list + weight (event_at q.event_list 0) ≡ tally q.event_list in
      if_elim IsLess (q.count == 0) (λ e. absurd (ground (arith, e, h)))
        (λ e.
          if_elim IsLess (ltb 1 q.count)
            (λ many.
              let more : 1 < q.count = ltb→lt 1 q.count many in
              omega (
                arith,
                tally-heap_hold q.count (move_last_to_root q) 0
                    (move_last_to_root-Indexed q v more),
                tally-move_last_to_root q v more,
              ))
            (λ one.
              let single : length q.event_list ≡ 1 = ground (arith, v.size, one, h) in
              omega (arith, one_event q.event_list single)))

  tally-add_timer :
      (q : TimerQueue) (te : TimerEvent)
      → PassesAnyId
      → Indexed q
      → tally (add_timer q te).1.event_list ≡ tally q.event_list + weight te
  unfolding add_timer heap_add push_event
  tally-add_timer q te any v =
      let te' = record te { timer_id = q.next_timer_id } in
      let q' = push_event (record q { next_timer_id = q.next_timer_id + 1 }) te' in
      let risen =
        tally-rise (q.count + 1) q' q.count (push_event-Indexed q te' v refl) (omega arith) in
      omega (
        arith,
        ap tally (rearm_event_list (rise (q.count + 1) q' q.count)),
        risen,
        tally-append q.event_list (te' ∷ []),
        ap one_if (any te q.next_timer_id),
      )

  pub tally-add_all :
      (q : TimerQueue) (tes : List TimerEvent)
      → PassesAnyId
      → Indexed q
      → tally (add_all q tes).event_list ≡ tally q.event_list + tally tes
  unfolding add_all
  tally-add_all q [] any v = omega arith
  tally-add_all q (te ∷ tes) any v = omega (
    arith,
    tally-add_all (add_timer q te).1 tes any (add_timer-Indexed q v te),
    tally-add_timer q te any v,
  )

  pub tally-fire_loop :
      (fuel : ℕ) (s : Firing)
      → Indexed s.queue
      → tally (fire_loop fuel s).fired + tally (fire_loop fuel s).queue.event_list
        ≡ tally s.fired + tally s.queue.event_list
  unfolding fire_loop fire_one
  tally-fire_loop zero s v = refl
  tally-fire_loop (suc fuel) s v =
      if_elim
        (λ (r : Firing).
          tally r.fired + tally r.queue.event_list ≡ tally s.fired + tally s.queue.event_list)
        (is_due s.queue)
        (λ d.
          let some_left : 0 < s.queue.count = ground (arith, d) in
          omega (
            arith,
            tally-fire_loop fuel (fire_one s) (heap_pop-Indexed s.queue v),
            tally-append s.fired (event_at s.queue.event_list 0 ∷ []),
            tally-heap_pop s.queue v some_left,
          ))
        (λ e. refl)
