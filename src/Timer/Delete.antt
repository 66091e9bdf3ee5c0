-- ===== src/Timer/Delete.antt =====
-- `delTimer` of TimerQueue.cpp: the event that replaces the deleted one only sinks, so the heap
-- order survives exactly when it is not due before the parent of its new place.
use posix_bsp_perf.Prelude.{
  ℕ, zero, suc, ◌+◌, ◌-◌, ◌*◌, ◌≤◌, ◌<◌, ◌≡◌, ◌↔◌, refl, arith, ◌==◌, if◌then◌else◌, lookup, some,
}
use posix_bsp_perf.Timer.{
  TimerQueue, event_at, ts_at, min_pos, heap_hold, move_last_to, heap_del, del_timer,
  rearm_after_del,
}
use posix_bsp_perf.Timer.Events.{event_at-replace}
use posix_bsp_perf.Timer.Index.{Indexed, move_last_to-Indexed}
use posix_bsp_perf.Timer.Order.{parent, IsHeap}
use posix_bsp_perf.Timer.Sink.{heap_hold-IsHeap}

-- The event that takes the place `pos` is not due before the parent of `pos`.
abbrev pub Fits : TimerQueue → ℕ → Type 0
Fits q pos =
    0 < pos → suc pos < q.count → ts_at q.event_list (parent pos) ≤ ts_at q.event_list (q.count - 1)

pub heap_del-IsHeap :
    (q : TimerQueue) (pos : ℕ)
    → Indexed q
    → IsHeap q
    → pos < q.count
    → Fits q pos
    → IsHeap (heap_del q pos)
unfolding heap_del
heap_del-IsHeap q pos v h hp fits =
    let w = move_last_to-Indexed q v pos hp in
    let at = λ (c : ℕ). event_at-replace q.event_list pos c (event_at q.event_list (q.count - 1)) in
    heap_hold-IsHeap q.count (move_last_to q pos) pos (unfold move_last_to in omega arith) (
      unfold move_last_to in
      record {
        size = w.size;
        edges = λ c p r ne. ground (arith, at c, at (parent c), h c, v.size, fits);
        bridged = λ c p r e o. ground (arith, at c, at (parent pos), h c, h pos, v.size);
      })

min_pos_settled :
    (q : TimerQueue) (i : ℕ)
    → (2 * i + 1 < q.count → ts_at q.event_list i ≤ ts_at q.event_list (2 * i + 1))
    → (2 * i + 2 < q.count → ts_at q.event_list i ≤ ts_at q.event_list (2 * i + 2))
    → min_pos q i ≡ i
unfolding min_pos
min_pos_settled q i h k = ground arith

heap_hold_settled : (fuel : ℕ) (q : TimerQueue) (i : ℕ) → min_pos q i ≡ i → heap_hold fuel q i ≡ q
unfolding heap_hold
heap_hold_settled zero q i e = refl
heap_hold_settled (suc fuel) q i e = ground arith

module _ (q : TimerQueue) (pos : ℕ) (v : Indexed q) (h : IsHeap q) (below_root : 0 < pos)
    (before_last : suc pos < q.count)
    (early : ts_at q.event_list (q.count - 1) < ts_at q.event_list (parent pos)) where
  at :
      (c : ℕ)
      → suc c < q.count
      → event_at (move_last_to q pos).event_list c
        ≡ (if pos == c then event_at q.event_list (q.count - 1) else event_at q.event_list c)
  unfolding move_last_to
  at c r =
      event_at-replace q.event_list pos c (event_at q.event_list (q.count - 1))
        (omega (arith, v.size)) (omega (arith, v.size))

  heap_del_stays : heap_del q pos ≡ move_last_to q pos
  unfolding heap_del
  heap_del_stays = heap_hold_settled q.count (move_last_to q pos) pos (
      min_pos_settled (move_last_to q pos) pos
        (λ r.
          unfold move_last_to in ground (arith, at pos, at (2 * pos + 1), h (2 * pos + 1), h pos))
        (λ r.
          unfold move_last_to in ground (arith, at pos, at (2 * pos + 2), h (2 * pos + 2), h pos)))

  move_last_to_breaks : ¬ IsHeap (move_last_to q pos)
  unfolding move_last_to
  move_last_to_breaks k = ground (arith, at pos, at (parent pos), k pos below_root (omega arith))

  heap_del_breaks : ¬ IsHeap (heap_del q pos)
  heap_del_breaks = rw heap_del_stays move_last_to_breaks

rearm_after_del-IsHeap : (q : TimerQueue) → IsHeap (rearm_after_del q) ↔ IsHeap q
unfolding rearm_after_del
rearm_after_del-IsHeap q = (λ h c p r. ground (arith, h c), λ h c p r. ground (arith, h c))

-- Deleting a listed timer from a heap of indexed events succeeds, and the result is a heap if the
-- last event is due no earlier than the parent of the deleted one.
pub del_timer-IsHeap :
    (q : TimerQueue) (t pos : ℕ)
    → Indexed q
    → IsHeap q
    → lookup t q.position ≡ some pos
    → Fits q pos
    → (q' : TimerQueue) × (del_timer q t ≡ some q') × IsHeap q'
unfolding del_timer
del_timer-IsHeap q t pos v h e fits = (
  rearm_after_del (heap_del q pos),
  rw (e, del_timer),
  (rearm_after_del-IsHeap _).1 (heap_del-IsHeap q pos v h (v.live t pos e).0 fits),
)

-- Deleting a timer that is neither the first nor the last one breaks the heap order whenever the
-- last event is due before the parent of the deleted one.
pub del_timer_breaks_order :
    (q : TimerQueue) (t pos : ℕ)
    → Indexed q
    → IsHeap q
    → lookup t q.position ≡ some pos
    → 0 < pos
    → suc pos < q.count
    → ts_at q.event_list (q.count - 1) < ts_at q.event_list (parent pos)
    → (q' : TimerQueue) × (del_timer q t ≡ some q') × ¬ IsHeap q'
unfolding del_timer
del_timer_breaks_order q t pos v h e below_root before_last early = (
  rearm_after_del (heap_del q pos),
  rw (e, del_timer),
  λ k. heap_del_breaks q pos v h below_root before_last early ((rearm_after_del-IsHeap _).0 k),
)
