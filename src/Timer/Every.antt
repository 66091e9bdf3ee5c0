-- ===== src/Timer/Every.antt =====
-- A property that every event of the heap has survives the moves of TimerQueue.cpp.
use posix_bsp_perf.Prelude.{
  ℕ, zero, suc, ◌+◌, ◌-◌, ◌<◌, ◌≡◌, List, [], ◌∷◌, arith, ltb, ltb→lt, ◌==◌, ==→ne, if_elim, refl,
  ap, length, All,
}
use posix_bsp_perf.Timer.{
  TimerEvent, TimerQueue, event_at, ts_at, swap_events, rise, min_pos, heap_hold, heap_pop,
  move_last_to, heap_del, move_last_to_root, heap_add, push_event, rearm_if_earlier, add_timer,
  add_all,
}
use posix_bsp_perf.Timer.Events.{event_at-replace, event_at-push}
use posix_bsp_perf.Timer.Index.{
  Indexed, event_at-swap_events, count-swap_events, move_last_to-Indexed, move_last_to_root-Indexed,
  swap_events-Indexed, push_event-Indexed,
}
use posix_bsp_perf.Timer.Keep.{min_pos_cases, add_timer-Indexed}
use posix_bsp_perf.Timer.Order.{parent}

abbrev pub Every : (TimerEvent → Type 0) → TimerQueue → Type 0
Every P q = (i : ℕ) → i < q.count → P (event_at q.event_list i)

-- A property that does not depend on the id given to a timer.
abbrev pub IgnoresId : (TimerEvent → Type 0) → Type 0
IgnoresId P = (te : TimerEvent) (t : ℕ) → P te → P (record te { timer_id = t })

pub rearm_event_list : (q : TimerQueue) → (rearm_if_earlier q).event_list ≡ q.event_list
unfolding rearm_if_earlier
rearm_event_list q = ground arith

pub rearm_count : (q : TimerQueue) → (rearm_if_earlier q).count ≡ q.count
unfolding rearm_if_earlier
rearm_count q = ground arith

module _ (P : TimerEvent → Type 0) where
  swap_events-Every :
      (q : TimerQueue) (i j : ℕ)
      → Indexed q
      → i < q.count
      → j < q.count
      → Every P q
      → Every P (swap_events q i j)
  swap_events-Every q i j v hi hj h c r =
      rw (event_at-swap_events q i j c (omega (arith, v.size)) (omega (arith, v.size))) (
        if_elim P (j == c) (λ _. h i hi)
          (λ _.
            if_elim P (i == c) (λ _. h j hj) (λ _. h c (omega (arith, count-swap_events q i j)))))

  heap_hold-Every :
      (fuel : ℕ) (q : TimerQueue) (i : ℕ) → Indexed q → Every P q → Every P (heap_hold fuel q i)
  unfolding heap_hold
  heap_hold-Every zero q i v h = h
  heap_hold-Every (suc fuel) q i v h =
      let m = min_pos q i in
      if_elim (Every P) (m == i) (λ same. h)
        λ moved.
          let cases = min_pos_cases q i in
          let hm : m < q.count = ground (arith, cases) in
          let hi : i < q.count = ground (arith, cases) in
          heap_hold-Every fuel (swap_events q m i) m
            (swap_events-Indexed q v m i hm hi (==→ne m i moved))
            (swap_events-Every q m i v hm hi h)

  -- `heapPop` needs nothing of the event that it removes.
  pub heap_pop_rest-Every :
      (q : TimerQueue)
      → Indexed q
      → ((i : ℕ) → 0 < i → i < q.count → P (event_at q.event_list i))
      → Every P (heap_pop q)
  unfolding heap_pop
  heap_pop_rest-Every q v h =
      if_elim (Every P) (q.count == 0) (λ none_left i r. absurd (ground arith))
        λ some_left.
          if_elim (Every P) (ltb 1 q.count)
            (λ many.
              let more : 1 < q.count = ltb→lt 1 q.count many in
              heap_hold-Every q.count _ 0 (move_last_to_root-Indexed q v more) (
                unfold move_last_to_root in
                λ c r.
                  rw
                    (event_at-replace q.event_list 0 c (event_at q.event_list (q.count - 1))
                      (omega (arith, v.size)) (omega (arith, v.size)))
                    (if_elim P (0 == c) (λ _. h (q.count - 1) (omega arith) (omega arith))
                      (λ e. h c (ground arith) (omega arith)))))
            (λ one c r. absurd (omega arith))

  pub heap_pop-Every : (q : TimerQueue) → Indexed q → Every P q → Every P (heap_pop q)
  heap_pop-Every q v h = heap_pop_rest-Every q v (λ i p r. h i r)

  pub heap_del-Every :
      (q : TimerQueue) (pos : ℕ) → Indexed q → pos < q.count → Every P q → Every P (heap_del q pos)
  unfolding heap_del
  heap_del-Every q pos v hp h = heap_hold-Every q.count _ pos (move_last_to-Indexed q v pos hp) (
      unfold move_last_to in
      λ c r.
        rw
          (event_at-replace q.event_list pos c (event_at q.event_list (q.count - 1))
            (omega (arith, v.size)) (omega (arith, v.size)))
          (if_elim P (pos == c) (λ _. h (q.count - 1) (omega arith)) (λ _. h c (omega arith))))

  rise-Every :
      (fuel : ℕ) (q : TimerQueue) (i : ℕ)
      → Indexed q
      → i < q.count
      → Every P q
      → Every P (rise fuel q i)
  unfolding rise
  rise-Every zero q i v hi h = h
  rise-Every (suc fuel) q i v hi h =
      if_elim (Every P) (ltb (ts_at q.event_list i) (ts_at q.event_list (parent i)))
        (λ less.
          rise-Every fuel (swap_events q i (parent i)) (parent i)
            (swap_events-Indexed q v i (parent i) hi (omega arith)
              (λ e. ground (arith, ap (ts_at q.event_list) e)))
            (omega (arith, count-swap_events q i (parent i)))
            (swap_events-Every q i (parent i) v hi (omega arith) h))
        (λ done. h)

  pub rearm_if_earlier-Every : (q : TimerQueue) → Every P q → Every P (rearm_if_earlier q)
  rearm_if_earlier-Every q h i r = rw (rearm_event_list q) (h i (omega (arith, rearm_count q)))

  -- `te` carries the next id.
  pub heap_add-Every :
      (q : TimerQueue) (te : TimerEvent)
      → Indexed q
      → te.timer_id ≡ q.next_timer_id
      → P te
      → Every P q
      → Every P (heap_add (record q { next_timer_id = q.next_timer_id + 1 }) te)
  unfolding heap_add
  heap_add-Every q te v e p h =
      let q' = push_event (record q { next_timer_id = q.next_timer_id + 1 }) te in
      rise-Every (q.count + 1) q' q.count (push_event-Indexed q te v e)
        (unfold push_event in omega arith)
        (unfold push_event in
          λ c r.
            rw (event_at-push q.event_list te c (omega (arith, v.size)))
              (if_elim P (c == length q.event_list) (λ _. p) (λ e. h c (ground (arith, v.size)))))

  pub add_timer-Every :
      (q : TimerQueue) (te : TimerEvent)
      → IgnoresId P
      → Indexed q
      → P te
      → Every P q
      → Every P (add_timer q te).1
  unfolding add_timer
  add_timer-Every q te ign v p h = rearm_if_earlier-Every _ (
      heap_add-Every q (record te { timer_id = q.next_timer_id }) v refl (ign te q.next_timer_id p)
        h)

  pub add_all-Every :
      (q : TimerQueue) (tes : List TimerEvent)
      → IgnoresId P
      → Indexed q
      → All P tes
      → Every P q
      → Every P (add_all q tes)
  unfolding add_all
  add_all-Every q [] ign v p h = h
  add_all-Every q (te ∷ tes) ign v p h =
      add_all-Every (add_timer q te).1 tes ign (add_timer-Indexed q v te) p.1
        (add_timer-Every q te ign v p.0 h)
