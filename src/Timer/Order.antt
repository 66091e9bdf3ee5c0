-- ===== src/Timer/Order.antt =====
-- The heap order that TimerQueue.cpp keeps: no event is due before its parent.
use posix_bsp_perf.Prelude.{ℕ, zero, suc, ◌-◌, ◌/◌, ◌≤◌, ◌<◌, ◌≡◌, arith}
use posix_bsp_perf.Timer.{TimerQueue, ts_at}

-- `previous_pos` of the code
abbrev pub parent : ℕ → ℕ
parent c = (c - 1) / 2

-- Every event but the first is due no earlier than its parent.
abbrev pub IsHeap : TimerQueue → Type 0
IsHeap q = (c : ℕ) → 0 < c → c < q.count → ts_at q.event_list (parent c) ≤ ts_at q.event_list c

-- The edges that skip `i`, from its parent to its children, are in order.
abbrev pub IsBridged : TimerQueue → ℕ → Type 0
IsBridged q i =
    (c : ℕ)
    → 0 < c
    → c < q.count
    → parent c ≡ i
    → 0 < i
    → ts_at q.event_list (parent i) ≤ ts_at q.event_list c

root_first_below :
    (k : ℕ) (q : TimerQueue) (i : ℕ)
    → IsHeap q
    → i < k
    → i < q.count
    → ts_at q.event_list 0 ≤ ts_at q.event_list i
root_first_below zero q i h f p = absurd (omega arith)
root_first_below (suc k) q i h f p = ground (arith, h i, root_first_below k q (parent i) h)

-- The first event of a heap is due no later than any other.
pub root_first :
    (q : TimerQueue) (i : ℕ) → IsHeap q → i < q.count → ts_at q.event_list 0 ≤ ts_at q.event_list i
root_first q i h p = root_first_below (suc i) q i h (omega arith) p
