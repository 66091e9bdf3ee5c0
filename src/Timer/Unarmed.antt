-- ===== src/Timer/Unarmed.antt =====
-- A queue as the constructor of TimerQueue.cpp leaves it has `m_pioneer` 0, and no due time is
-- earlier: the timerfd is not set by adding timers.
use posix_bsp_perf.Prelude.{◌+◌, ◌≡◌, refl, ◌∙◌, List, [], ◌∷◌, arith, length}
use posix_bsp_perf.Timer.{
  TimerEvent, TimerQueue, disarmed, init, add_timer, add_all, rearm_if_earlier,
}
use posix_bsp_perf.Timer.Counts.{add_all-count, heap_add-alarm}

add_timer_unarmed :
    (q : TimerQueue) (te : TimerEvent)
    → q.pioneer ≡ 0
    → ((add_timer q te).1.pioneer ≡ 0) × ((add_timer q te).1.alarm ≡ q.alarm)
unfolding add_timer rearm_if_earlier
add_timer_unarmed q te e =
    let te' = record te { timer_id = q.next_timer_id } in
    let q' = record q { next_timer_id = q.next_timer_id + 1 } in
    ground (arith, heap_add-alarm q' te')

add_all_unarmed :
    (q : TimerQueue) (tes : List TimerEvent)
    → q.pioneer ≡ 0
    → ((add_all q tes).pioneer ≡ 0) × ((add_all q tes).alarm ≡ q.alarm)
unfolding add_all
add_all_unarmed q [] e = (e, refl)
add_all_unarmed q (te ∷ tes) e =
    let one = add_timer_unarmed q te e in
    let ih = add_all_unarmed (add_timer q te).1 tes one.0 in (ih.0, ih.1 ∙ one.1)

-- Whatever timers are added to a new queue, all of them wait in it and the timerfd stays disarmed.
pub add_all-init_never_arms :
    (tes : List TimerEvent)
    → ((add_all init tes).count ≡ length tes) × ((add_all init tes).alarm ≡ disarmed)
unfolding init
add_all-init_never_arms tes =
    (omega (arith, add_all-count init tes), (add_all_unarmed init tes refl).1)
