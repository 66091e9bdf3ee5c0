-- ===== src/Timer/Calls.antt =====
-- The timer calls of the event loops, bsp/bsp_sockets/impl/EventLoopPoll.cpp and EventLoopEpoll.cpp:
-- runAt, runAfter and runEvery. `tv_sec` and `tv_nsec` are what the clock says. The spans are taken to
-- be small enough for `int`.
use posix_bsp_perf.Prelude.{ℕ, ◌+◌, ◌*◌, ◌/◌, ◌%◌, ◌^◌}
use posix_bsp_perf.Timer.{TimerEvent, TimerQueue, uint64_mod, add_timer}
use posix_bsp_perf.Timer.Order.{IsHeap}
use posix_bsp_perf.Timer.Index.{Indexed}
use posix_bsp_perf.Timer.Rise.{add_timer-IsHeap}

-- The constructors of `timerEvent`; `addTimer` sets the id.
abbrev pub timer_event : ℕ → ℕ → ℕ → ℕ → TimerEvent
timer_event cb args ts interval = record {
  cb = cb;
  cb_data = args;
  ts = ts;
  interval = interval;
  timer_id = 0;
}

-- `tpc.tv_sec * 1000 + tpc.tv_nsec / 1000000UL`
abbrev pub millis_of : ℕ → ℕ → ℕ
millis_of tv_sec tv_nsec = (tv_sec * 1000 + tv_nsec / 1000000) % uint64_mod

unfoldable pub run_at : ℕ → ℕ → ℕ → TimerQueue → ℕ × TimerQueue
run_at cb args ts q = add_timer q (timer_event cb args ts 0)

-- The code returns nothing, so the id is not part of the result.
unfoldable pub run_after : ℕ → ℕ → ℕ → ℕ → ℕ → ℕ → TimerQueue → TimerQueue
unfolding run_at
run_after tv_sec tv_nsec cb args sec millis q =
    (run_at cb args ((millis_of tv_sec tv_nsec + (sec * 1000 + millis)) % uint64_mod) q).1

unfoldable pub run_every : ℕ → ℕ → ℕ → ℕ → ℕ → ℕ → TimerQueue → ℕ × TimerQueue
run_every tv_sec tv_nsec cb args sec millis q =
    let interval = (sec * 1000 + millis) % 2 ^ 32 in
    add_timer q (timer_event cb args ((millis_of tv_sec tv_nsec + interval) % uint64_mod) interval)

module _ (q : TimerQueue) (v : Indexed q) (h : IsHeap q) where
  run_at-IsHeap : (cb args ts : ℕ) → IsHeap (run_at cb args ts q).1
  unfolding run_at
  run_at-IsHeap cb args ts = add_timer-IsHeap q (timer_event cb args ts 0) v h

  pub run_after-IsHeap :
      (tv_sec tv_nsec cb args sec millis : ℕ)
      → IsHeap (run_after tv_sec tv_nsec cb args sec millis q)
  unfolding run_after
  run_after-IsHeap tv_sec tv_nsec cb args sec millis = run_at-IsHeap cb args _

  pub run_every-IsHeap :
      (tv_sec tv_nsec cb args sec millis : ℕ)
      → IsHeap (run_every tv_sec tv_nsec cb args sec millis q).1
  unfolding run_every
  run_every-IsHeap tv_sec tv_nsec cb args sec millis = add_timer-IsHeap q _ v h
