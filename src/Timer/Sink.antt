-- ===== src/Timer/Sink.antt =====
-- `heapHold` and `heapPop` of TimerQueue.cpp keep the heap order.
use posix_bsp_perf.Prelude.{
  ℕ, zero, suc, ◌+◌, ◌-◌, ◌*◌, ◌≤◌, ◌<◌, ◌≡◌, ◌≢◌, ◌⊎◌, sym, ◌∙◌, subst, ==_iff, arith, ltb, ◌==◌,
  ==→ne, Bool-cases, if_elim, length, ltb→lt, inl, inr,
}
use posix_bsp_perf.Timer.{
  TimerQueue, event_at, ts_at, swap_events, min_pos, heap_hold, move_last_to_root, heap_pop,
}
use posix_bsp_perf.Timer.Events.{event_at-replace}
use posix_bsp_perf.Timer.Index.{
  Indexed, event_at-swap_events, length-swap_events, count-swap_events, move_last_to_root-Indexed,
}
use posix_bsp_perf.Timer.Order.{parent, IsHeap, IsBridged}

-- Only the edges below `i` may be out of order.
pub record Sinking (q : TimerQueue) (i : ℕ) : Type 0 where
  pub size : length q.event_list ≡ q.count
  pub edges :
      (c : ℕ)
      → 0 < c
      → c < q.count
      → parent c ≢ i
      → ts_at q.event_list (parent c) ≤ ts_at q.event_list c
  pub bridged : IsBridged q i

-- `m` is where the event at `i` sinks to: nothing below `i` is due before it.
record IsFirstChild (q : TimerQueue) (i m : ℕ) : Type 0 where
  inside : m < q.count
  child : (m ≡ 2 * i + 1) ⊎ (m ≡ 2 * i + 2)
  earlier : ts_at q.event_list m < ts_at q.event_list i
  least : (c : ℕ) → 0 < c → c < q.count → parent c ≡ i → ts_at q.event_list m ≤ ts_at q.event_list c

child_cases : (c i : ℕ) → 0 < c → parent c ≡ i → (c ≡ 2 * i + 1) ⊎ (c ≡ 2 * i + 2)
child_cases c i p t = omega arith

min_pos_le_left :
    (q : TimerQueue) (i : ℕ)
    → 2 * i + 1 < q.count
    → ts_at q.event_list (min_pos q i) ≤ ts_at q.event_list (2 * i + 1)
unfolding min_pos
min_pos_le_left q i h = ground arith

min_pos_le_right :
    (q : TimerQueue) (i : ℕ)
    → 2 * i + 2 < q.count
    → ts_at q.event_list (min_pos q i) ≤ ts_at q.event_list (2 * i + 2)
unfolding min_pos
min_pos_le_right q i h = ground arith

-- No child of `i` is due before the event at `min_pos`.
pub min_pos_least :
    (q : TimerQueue) (i c : ℕ)
    → 0 < c
    → c < q.count
    → parent c ≡ i
    → ts_at q.event_list (min_pos q i) ≤ ts_at q.event_list c
min_pos_least q i c p r t = elim (child_cases c i p t) [
  | inl e ↦ rw e (min_pos_le_left q i (rw e at r))
  | inr e ↦ rw e (min_pos_le_right q i (rw e at r))
]

min_pos_moves : (q : TimerQueue) (i : ℕ) → min_pos q i ≢ i → IsFirstChild q i (min_pos q i)
unfolding min_pos
min_pos_moves q i ne = record {
  inside = ground arith;
  child = ground arith;
  earlier = ground arith;
  least = min_pos_least q i;
}

swap_events-Sinking :
    (q : TimerQueue) (i m : ℕ) → Sinking q i → IsFirstChild q i m → Sinking (swap_events q m i) m
swap_events-Sinking q i m v s =
    let at = λ (c : ℕ).
      event_at-swap_events q m i c (omega (arith, v.size, s.inside))
        (omega (arith, v.size, s.inside, s.child)) in
    let n = count-swap_events q m i in
    record {
      size = omega (arith, v.size, length-swap_events q m i, n);
      edges = λ c p r ne.
          ground
            (arith, n, at c, at (parent c), v.edges c, v.bridged m, s.least c, s.child, s.earlier);
      bridged = λ c p r e o. ground (arith, n, at c, at (parent m), v.edges c, s.child);
    }

pub heap_hold-IsHeap :
    (fuel : ℕ) (q : TimerQueue) (i : ℕ)
    → q.count ≤ fuel + i
    → Sinking q i
    → IsHeap (heap_hold fuel q i)
unfolding heap_hold
heap_hold-IsHeap zero q i f v = λ c p r. v.edges c p r (omega arith)
heap_hold-IsHeap (suc fuel) q i f v =
    let m = min_pos q i in
    if_elim IsHeap (m == i)
      (λ same c p r. elim (Bool-cases (parent c == i)) [
        | inl below ↦
            subst (λ k. ts_at q.event_list k ≤ ts_at q.event_list c)
              ((==_iff m i).0 same ∙ sym ((==_iff (parent c) i).0 below))
              (min_pos_least q i c p r ((==_iff (parent c) i).0 below))
        | inr other ↦ v.edges c p r (==→ne _ _ other)
      ])
      (λ moved.
        let s = min_pos_moves q i (==→ne m i moved) in
        heap_hold-IsHeap fuel (swap_events q m i) m
          (omega (arith, s.child, count-swap_events q m i)) (swap_events-Sinking q i m v s))

-- Taking the first event out of a heap leaves a heap.
pub heap_pop-IsHeap : (q : TimerQueue) → Indexed q → IsHeap q → IsHeap (heap_pop q)
unfolding heap_pop
heap_pop-IsHeap q v h =
    if_elim IsHeap (q.count == 0) (λ _. h)
      λ some_left.
        if_elim IsHeap (ltb 1 q.count)
          (λ many.
            let w = move_last_to_root-Indexed q v (ltb→lt 1 q.count many) in
            let at =
              λ (c : ℕ). event_at-replace q.event_list 0 c (event_at q.event_list (q.count - 1)) in
            heap_hold-IsHeap q.count (move_last_to_root q) 0
              (unfold move_last_to_root in omega arith)
              (unfold move_last_to_root in
                record {
                  size = w.size;
                  edges = λ c p r ne. ground (arith, at c, at (parent c), h c, v.size);
                  bridged = λ c p r e o. absurd (omega arith);
                }))
          (λ one c p r. absurd (omega arith))
