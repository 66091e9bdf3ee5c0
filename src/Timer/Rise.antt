-- ===== src/Timer/Rise.antt =====
-- `heapAdd` of TimerQueue.cpp restores the heap order.
use posix_bsp_perf.Prelude.{
  ℕ, zero, suc, ◌+◌, ◌≤◌, ◌<◌, ◌≡◌, ◌≢◌, refl, List, [], ◌∷◌, arith, ltb, if_elim, ltb→lt, length,
}
use posix_bsp_perf.Timer.{
  TimerEvent, TimerQueue, ts_at, swap_events, push_event, rise, heap_add, add_timer,
  rearm_if_earlier, add_all,
}
use posix_bsp_perf.Timer.Events.{event_at-push}
use posix_bsp_perf.Timer.Index.{
  Indexed, event_at-swap_events, length-swap_events, count-swap_events, push_event-Indexed,
}
use posix_bsp_perf.Timer.Keep.{add_timer-Indexed}
use posix_bsp_perf.Timer.Order.{parent, IsHeap, IsBridged}

-- Only the edge above `i` may be out of order.
record Rising (q : TimerQueue) (i : ℕ) : Type 0 where
  size : length q.event_list ≡ q.count
  inside : i < q.count
  edges :
      (c : ℕ) → 0 < c → c < q.count → c ≢ i → ts_at q.event_list (parent c) ≤ ts_at q.event_list c
  bridged : IsBridged q i

swap_events-Rising :
    (q : TimerQueue) (i : ℕ)
    → Rising q i
    → ts_at q.event_list i < ts_at q.event_list (parent i)
    → 0 < i
    → Rising (swap_events q i (parent i)) (parent i)
swap_events-Rising q i v below pos =
    let at = λ (c : ℕ).
      event_at-swap_events q i (parent i) c (omega (arith, v.size))
        (omega (arith, v.size, v.inside)) in
    let n = count-swap_events q i (parent i) in
    record {
      size = omega (arith, v.size, length-swap_events q i (parent i), n);
      inside = omega (arith, v.inside, n);
      edges = λ c p r ne. ground (arith, n, at c, at (parent c), v.edges c, v.bridged c, v.inside);
      bridged = λ c p r e o. ground (
        arith,
        n,
        at c,
        at (parent (parent i)),
        v.edges c,
        v.edges (parent i),
        v.bridged c,
        v.inside,
      );
    }

-- An event that is due before its parent is not the first one.
below_parent :
    (q : TimerQueue) (i : ℕ) → ts_at q.event_list i < ts_at q.event_list (parent i) → 0 < i
below_parent q zero h = absurd (omega arith)
below_parent q (suc i) h = omega arith

rise-IsHeap : (fuel : ℕ) (q : TimerQueue) (i : ℕ) → i < fuel → Rising q i → IsHeap (rise fuel q i)
unfolding rise
rise-IsHeap zero q i f v = absurd (omega arith)
rise-IsHeap (suc fuel) q i f v =
    if_elim IsHeap (ltb (ts_at q.event_list i) (ts_at q.event_list (parent i)))
      (λ less.
        let below = ltb→lt _ _ less in
        rise-IsHeap fuel (swap_events q i (parent i)) (parent i)
          (omega (arith, below_parent q i below))
          (swap_events-Rising q i v below (below_parent q i below)))
      (λ done c p r. ground (arith, v.edges c))

pub rearm_if_earlier-IsHeap : (q : TimerQueue) → IsHeap q → IsHeap (rearm_if_earlier q)
unfolding rearm_if_earlier
rearm_if_earlier-IsHeap q h c p r = ground (arith, h c)

-- Adding a timer to an indexed heap gives a heap.
pub add_timer-IsHeap :
    (q : TimerQueue) (te : TimerEvent) → Indexed q → IsHeap q → IsHeap (add_timer q te).1
unfolding add_timer heap_add
add_timer-IsHeap q te v h =
    let te' = record te { timer_id = q.next_timer_id } in
    let q' = push_event (record q { next_timer_id = q.next_timer_id + 1 }) te' in
    let at = event_at-push q.event_list te' in
    let w = push_event-Indexed q te' v refl in
    let heap = rise-IsHeap (q.count + 1) q' q.count (omega arith) (
      unfold push_event in
      record {
        size = w.size;
        inside = omega arith;
        edges = λ c p r ne. ground (arith, at c, at (parent c), h c, v.size);
        bridged = λ c p r e o. absurd (omega arith);
      }) in
    rearm_if_earlier-IsHeap _ heap

pub add_all-IsHeap :
    (q : TimerQueue) (tes : List TimerEvent) → Indexed q → IsHeap q → IsHeap (add_all q tes)
unfolding add_all
add_all-IsHeap q [] v h = h
add_all-IsHeap q (te ∷ tes) v h =
    add_all-IsHeap (add_timer q te).1 tes (add_timer-Indexed q v te) (add_timer-IsHeap q te v h)
