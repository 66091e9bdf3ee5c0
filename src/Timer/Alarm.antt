-- ===== src/Timer/Alarm.antt =====
-- The timerfd of TimerQueue.cpp follows the first event.
use posix_bsp_perf.Prelude.{
  List, [], ◌∷◌, All, ◌+◌, ◌≤◌, ◌<◌, ◌≡◌, refl, sym, ◌∙◌, ap, arith, ltb, if_elim,
}
use posix_bsp_perf.Timer.{
  TimerEvent, TimerQueue, no_pioneer, time_spec, event_at, ts_at, add_timer, add_all, heap_add,
  rearm_if_earlier,
}
use posix_bsp_perf.Timer.Index.{Indexed}
use posix_bsp_perf.Timer.Keep.{add_timer-Indexed}
use posix_bsp_perf.Timer.Every.{Every, add_timer-Every, heap_add-Every}
use posix_bsp_perf.Timer.Counts.{heap_add-alarm, heap_add-count}

-- A due time that the timerfd can be set to.
abbrev pub Timely : TimerEvent → Type 0
Timely te = (0 < te.ts) × (te.ts < no_pioneer)

-- The timerfd shows `m_pioneer`; while events wait that is a real due time, no later than the first
-- event's, and else the alarm is off.
pub record Armed (q : TimerQueue) : Type 0 where
  pub shown : q.alarm ≡ time_spec q.pioneer
  pub waiting :
      0 < q.count → (0 < q.pioneer) × (q.pioneer < no_pioneer) × (q.pioneer ≤ ts_at q.event_list 0)
  pub idle : q.count ≡ 0 → q.pioneer ≡ no_pioneer

-- Rearming arms a queue whose alarm, if later than the first event, was on or all off.
rearm_if_earlier-Armed :
    (q : TimerQueue)
    → q.alarm ≡ time_spec q.pioneer
    → 0 < q.pioneer
    → q.pioneer ≤ no_pioneer
    → 0 < q.count
    → Timely (event_at q.event_list 0)
    → Armed (rearm_if_earlier q)
unfolding rearm_if_earlier
rearm_if_earlier-Armed q shown pos top some_left t =
    if_elim Armed (ltb (ts_at q.event_list 0) q.pioneer)
      (λ less. record {
        shown = refl;
        waiting = λ _. omega arith;
        idle = λ e. absurd (omega arith);
      })
      (λ late. record {
        shown = shown;
        waiting = λ _. ground arith;
        idle = λ e. absurd (omega arith);
      })

module _ (q : TimerQueue) (v : Indexed q) (h : Every Timely q) (a : Armed q) where
  -- Adding a timer to an indexed queue whose alarm is right leaves the alarm right, if all due
  -- times, the new one's too, are ones that the timerfd can be set to.
  pub add_timer-Armed : (te : TimerEvent) → Timely te → Armed (add_timer q te).1
  unfolding add_timer
  add_timer-Armed te t =
      let te' = record te { timer_id = q.next_timer_id } in
      let q' = record q { next_timer_id = q.next_timer_id + 1 } in
      let same = heap_add-alarm q' te' in
      let n = heap_add-count q' te' in
      rearm_if_earlier-Armed (heap_add q' te') (same.1 ∙ a.shown ∙ ap time_spec (sym same.0))
        (ground (arith, same.0, a.waiting, a.idle)) (ground (arith, same.0, a.waiting, a.idle))
        (omega (arith, n)) (heap_add-Every Timely q te' v refl t h 0 (omega (arith, n)))

pub add_all-Armed :
    (q : TimerQueue) (tes : List TimerEvent)
    → Indexed q
    → Every Timely q
    → Armed q
    → All Timely tes
    → Armed (add_all q tes)
unfolding add_all
add_all-Armed q [] v h a t = a
add_all-Armed q (te ∷ tes) v h a t =
    add_all-Armed (add_timer q te).1 tes (add_timer-Indexed q v te)
      (add_timer-Every Timely q te (λ e i p. p) v t.0 h) (add_timer-Armed q v h a te t.0) t.1
