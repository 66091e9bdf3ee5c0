-- ===== src/Timer/Tests.antt =====
-- Runs of the timer queue on small inputs.
use posix_bsp_perf.Prelude.{
  ℕ, ◌≡◌, refl, List, [], ◌∷◌, map, some, none, arith, lookup, insert, erase, set, get_or,
  drop_last,
}
use posix_bsp_perf.Timer.{
  TimerEvent, TimerQueue, no_pioneer, disarmed, time_spec, init, event_at, add_timer, add_all,
  heap_add, swap_events, push_event, rise, rearm_if_earlier, del_timer, heap_del, heap_hold,
  min_pos, move_last_to, rearm_after_del, heap_pop, move_last_to_root, fire_loop, fire_one, settle,
  get_fired_timer_events,
}
use posix_bsp_perf.Timer.Index.{Indexed}
use posix_bsp_perf.Timer.Keep.{add_timer-Indexed, add_all-Indexed, del_timer-Indexed}
use posix_bsp_perf.Timer.Order.{IsHeap}
use posix_bsp_perf.Timer.Rise.{add_timer-IsHeap, add_all-IsHeap}
use posix_bsp_perf.Timer.Delete.{del_timer-IsHeap, del_timer_breaks_order}
use posix_bsp_perf.Timer.Every.{Every, add_all-Every}
use posix_bsp_perf.Timer.Fire.{Regular, IsRound, get_fired_timer_events-IsRound}
use posix_bsp_perf.Timer.Alarm.{Timely, Armed, add_timer-Armed, add_all-Armed}
use posix_bsp_perf.Timer.Periodic.{del_timer-get_fired_timer_events}
use posix_bsp_perf.Timer.Unarmed.{add_all-init_never_arms}

abbrev event : ℕ → ℕ → TimerEvent
event ts interval = record { cb = 1; cb_data = 0; ts = ts; interval = interval; timer_id = 0 }

abbrev events : List TimerEvent
events = event 40 0 ∷ event 90 0 ∷ event 70 0 ∷ event 10 5 ∷ []

-- The queue after its last timer was deleted.
abbrev idle : TimerQueue
idle = record {
  event_list = [];
  position = [];
  count = 0;
  next_timer_id = 0;
  pioneer = no_pioneer;
  alarm = disarmed;
}

idle-Indexed : Indexed idle
unfolding lookup
idle-Indexed = record {
  size = refl;
  placed = λ i h. absurd (omega arith);
  live = λ t p e. cc;
  fresh = λ i h. absurd (omega arith);
}

idle-Armed : Armed idle
unfolding time_spec
idle-Armed = record { shown = refl; waiting = λ h. absurd (omega arith); idle = λ e. refl }

abbrev sample : TimerQueue
unfolding add_all add_timer heap_add rise swap_events push_event rearm_if_earlier event_at get_or
    set insert
sample = add_all idle events

sample_due : map (λ e. e.ts) sample.event_list ≡ 10 ∷ 40 ∷ 70 ∷ 90 ∷ []
unfolding sample
sample_due = refl

-- The periodic event of id 3 fires at 10 and comes back as id 4.
sample_fired :
    map (λ e. e.timer_id) (get_fired_timer_events sample).1.event_list ≡ 4 ∷ 0 ∷ 2 ∷ 1 ∷ []
unfolding sample get_fired_timer_events fire_loop fire_one heap_pop move_last_to_root heap_hold
    min_pos drop_last settle
sample_fired = refl

sample-Indexed : Indexed sample
unfolding sample
sample-Indexed = add_all-Indexed idle events idle-Indexed

sample-IsHeap : IsHeap sample
unfolding sample
sample-IsHeap = add_all-IsHeap idle events idle-Indexed (λ c p r. absurd (omega arith))

idle-Every : (P : TimerEvent → Type 0) → Every P idle
idle-Every P i h = absurd (omega arith)

sample-Timely : Every Timely sample
unfolding sample
sample-Timely =
    add_all-Every Timely idle events (λ te t p. p) idle-Indexed (omega arith) (idle-Every Timely)

sample-Armed : Armed sample
unfolding sample
sample-Armed = add_all-Armed idle events idle-Indexed (idle-Every Timely) idle-Armed (omega arith)

sample-Regular : Every (Regular sample.pioneer) sample
unfolding sample
sample-Regular =
    add_all-Every (Regular 10) idle events (λ te t p. p) idle-Indexed (omega arith)
      (idle-Every (Regular 10))

add_timer-Indexed_run : Indexed (add_timer sample (event 20 0)).1
add_timer-Indexed_run = add_timer-Indexed sample sample-Indexed (event 20 0)

del_timer-Indexed_run : Indexed (rearm_after_del (heap_del sample 1))
unfolding sample del_timer lookup
del_timer-Indexed_run =
    del_timer-Indexed sample (rearm_after_del (heap_del sample 1)) 0 sample-Indexed refl

add_timer-IsHeap_example : IsHeap (add_timer sample (event 20 0)).1
add_timer-IsHeap_example = add_timer-IsHeap sample (event 20 0) sample-Indexed sample-IsHeap

del_timer-IsHeap_run : (q : TimerQueue) × (del_timer sample 0 ≡ some q) × IsHeap q
unfolding sample lookup
del_timer-IsHeap_run = del_timer-IsHeap sample 0 1 sample-Indexed sample-IsHeap refl (omega arith)

-- A heap in which the last event is due before an inner one of another branch.
abbrev lopsided_events : List TimerEvent
lopsided_events =
    event 1 0 ∷ event 10 0 ∷ event 2 0 ∷ event 11 0 ∷ event 12 0 ∷ event 3 0 ∷ event 4 0 ∷ []

abbrev lopsided : TimerQueue
unfolding sample
lopsided = add_all idle lopsided_events

lopsided_deleted : map (λ e. e.ts) (heap_del lopsided 3).event_list ≡ 1 ∷ 10 ∷ 2 ∷ 4 ∷ 12 ∷ 3 ∷ []
unfolding lopsided heap_del move_last_to heap_hold min_pos drop_last erase
lopsided_deleted = refl

del_timer_breaks_order_run : (q : TimerQueue) × (del_timer lopsided 3 ≡ some q) × ¬ IsHeap q
unfolding lopsided lookup
del_timer_breaks_order_run =
    del_timer_breaks_order lopsided 3 3 (add_all-Indexed idle lopsided_events idle-Indexed)
      (add_all-IsHeap idle lopsided_events idle-Indexed (λ c p r. absurd (omega arith))) refl
      (omega arith) (omega arith) (omega arith)

get_fired_timer_events-IsRound_example : IsRound sample (get_fired_timer_events sample)
get_fired_timer_events-IsRound_example =
    get_fired_timer_events-IsRound sample sample-Indexed sample-IsHeap sample-Regular

add_timer-Armed_example : Armed (add_timer sample (event 20 0)).1
add_timer-Armed_example =
    add_timer-Armed sample sample-Indexed sample-Timely sample-Armed (event 20 0) (omega arith)

del_timer-get_fired_timer_events_run : del_timer (get_fired_timer_events sample).1 3 ≡ none
unfolding sample
del_timer-get_fired_timer_events_run =
    del_timer-get_fired_timer_events sample sample-Indexed (omega arith) refl

add_all-init_never_arms_run :
    ((add_all init events).count ≡ 4) × ((add_all init events).alarm ≡ disarmed)
add_all-init_never_arms_run = add_all-init_never_arms events
