-- ===== src/Timer/Counts.antt =====
-- How many events each operation of TimerQueue.cpp leaves, and what happens to `m_pioneer`.
use posix_bsp_perf.Prelude.{
  ℕ, zero, suc, ◌+◌, ◌-◌, ◌/◌, ◌≡◌, refl, ◌∙◌, List, [], ◌∷◌, arith, length,
}
use posix_bsp_perf.Timer.{
  TimerEvent, TimerQueue, swap_events, rise, min_pos, heap_hold, heap_pop, heap_del, move_last_to,
  move_last_to_root, heap_add, push_event, add_timer, add_all,
}
use posix_bsp_perf.Timer.Keep.{heap_hold-count, rise-count}
use posix_bsp_perf.Timer.Every.{rearm_count}

pub heap_hold-pioneer :
    (fuel : ℕ) (q : TimerQueue) (i : ℕ) → (heap_hold fuel q i).pioneer ≡ q.pioneer
unfolding heap_hold swap_events
heap_hold-pioneer zero q i = refl
heap_hold-pioneer (suc fuel) q i =
    ground (arith, heap_hold-pioneer fuel (swap_events q (min_pos q i) i) (min_pos q i))

pub heap_pop-pioneer : (q : TimerQueue) → (heap_pop q).pioneer ≡ q.pioneer
unfolding heap_pop move_last_to_root
heap_pop-pioneer q = ground (arith, heap_hold-pioneer q.count (move_last_to_root q) 0)

pub heap_pop-count : (q : TimerQueue) → (heap_pop q).count ≡ q.count - 1
unfolding heap_pop move_last_to_root
heap_pop-count q = ground (arith, heap_hold-count q.count (move_last_to_root q) 0)

pub add_timer-count : (q : TimerQueue) (te : TimerEvent) → (add_timer q te).1.count ≡ q.count + 1
unfolding add_timer heap_add push_event
add_timer-count q te =
    let te' = record te { timer_id = q.next_timer_id } in
    let q' = push_event (record q { next_timer_id = q.next_timer_id + 1 }) te' in
    rearm_count (rise (q.count + 1) q' q.count) ∙ rise-count (q.count + 1) q' q.count

pub add_all-count :
    (q : TimerQueue) (tes : List TimerEvent) → (add_all q tes).count ≡ q.count + length tes
unfolding add_all
add_all-count q [] = omega arith
add_all-count q (te ∷ tes) =
    omega (arith, add_all-count (add_timer q te).1 tes, add_timer-count q te)

pub heap_add-count : (q : TimerQueue) (te : TimerEvent) → (heap_add q te).count ≡ q.count + 1
unfolding heap_add push_event
heap_add-count q te = rise-count (q.count + 1) (push_event q te) q.count

rise-pioneer : (fuel : ℕ) (q : TimerQueue) (i : ℕ) → (rise fuel q i).pioneer ≡ q.pioneer
unfolding rise swap_events
rise-pioneer zero q i = refl
rise-pioneer (suc fuel) q i =
    ground (arith, rise-pioneer fuel (swap_events q i ((i - 1) / 2)) ((i - 1) / 2))

rise-alarm : (fuel : ℕ) (q : TimerQueue) (i : ℕ) → (rise fuel q i).alarm ≡ q.alarm
unfolding rise swap_events
rise-alarm zero q i = refl
rise-alarm (suc fuel) q i =
    ground (arith, rise-alarm fuel (swap_events q i ((i - 1) / 2)) ((i - 1) / 2))

heap_hold-alarm : (fuel : ℕ) (q : TimerQueue) (i : ℕ) → (heap_hold fuel q i).alarm ≡ q.alarm
unfolding heap_hold swap_events
heap_hold-alarm zero q i = refl
heap_hold-alarm (suc fuel) q i =
    ground (arith, heap_hold-alarm fuel (swap_events q (min_pos q i) i) (min_pos q i))

-- The heap operations leave `m_pioneer` and the timerfd alone.
pub heap_add-alarm :
    (q : TimerQueue) (te : TimerEvent)
    → ((heap_add q te).pioneer ≡ q.pioneer) × ((heap_add q te).alarm ≡ q.alarm)
unfolding heap_add push_event
heap_add-alarm q te = (
  rise-pioneer (q.count + 1) (push_event q te) q.count,
  rise-alarm (q.count + 1) (push_event q te) q.count,
)

pub heap_del-alarm :
    (q : TimerQueue) (pos : ℕ)
    → ((heap_del q pos).pioneer ≡ q.pioneer)
      × ((heap_del q pos).alarm ≡ q.alarm)
      × ((heap_del q pos).count ≡ q.count - 1)
unfolding heap_del move_last_to
heap_del-alarm q pos = (
  heap_hold-pioneer q.count (move_last_to q pos) pos,
  heap_hold-alarm q.count (move_last_to q pos) pos,
  heap_hold-count q.count (move_last_to q pos) pos,
)
