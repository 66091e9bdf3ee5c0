-- ===== src/Timer.antt =====
-- bsp/bsp_sockets/impl/TimerQueue.hpp and TimerQueue.cpp: the timers of an event loop, kept in a
-- binary min-heap by due time, with a map from timer ids to heap positions and one timerfd.
-- A callback and its argument are opaque handles. `uint64_t` sums wrap; timer ids, an `int`, are
-- unbounded here. `operator[]` out of range reads `no_event`; Timer/Index shows that the positions
-- used are in range.
pub mod Events
pub mod Index
pub mod Keep
pub mod Order
pub mod Rise
pub mod Sink
pub mod Delete
pub mod Every
pub mod Counts
pub mod Fire
pub mod Tally
pub mod Periodic
pub mod Alarm
pub mod Unarmed
pub mod Calls
mod Tests
use posix_bsp_perf.Prelude.{
  ℕ, zero, suc, ◌+◌, ◌-◌, ◌*◌, ◌/◌, ◌%◌, ◌^◌, Bool, true, false, ◌&&◌, Option, none, some, List, [],
  ◌∷◌, ◌++◌, ltb, leb, ◌==◌, if◌then◌else◌, get_or, set, drop_last, Map, lookup, insert, erase,
}

pub record TimerEvent : Type 0 where
  pub cb : ℕ
  pub cb_data : ℕ
  pub ts : ℕ
  pub interval : ℕ
  pub timer_id : ℕ

-- `struct itimerspec::it_value`; the value 0 disarms the timerfd.
pub record TimeSpec : Type 0 where
  pub tv_sec : ℕ
  pub tv_nsec : ℕ

-- `alarm` is what the last `timerfd_settime` wrote.
pub record TimerQueue : Type 0 where
  pub event_list : List TimerEvent
  pub position : Map ℕ
  pub count : ℕ
  pub next_timer_id : ℕ
  pub pioneer : ℕ
  pub alarm : TimeSpec

abbrev pub uint64_mod : ℕ
uint64_mod = 2 ^ 64

-- `(uint64_t)-1`
abbrev pub no_pioneer : ℕ
no_pioneer = 18446744073709551615

abbrev pub disarmed : TimeSpec
disarmed = record { tv_sec = 0; tv_nsec = 0 }

abbrev pub no_event : TimerEvent
no_event = record { cb = 0; cb_data = 0; ts = 0; interval = 0; timer_id = 0 }

unfoldable pub event_at : List TimerEvent → ℕ → TimerEvent
event_at l i = get_or l i no_event

abbrev pub ts_at : List TimerEvent → ℕ → ℕ
ts_at l i = (event_at l i).ts

abbrev pub id_at : List TimerEvent → ℕ → ℕ
id_at l i = (event_at l i).timer_id

-- A queue as the constructor leaves it: `m_pioneer` is 0 and the timerfd was never set.
unfoldable pub init : TimerQueue
init = record {
  event_list = [];
  position = [];
  count = 0;
  next_timer_id = 0;
  pioneer = 0;
  alarm = disarmed;
}

unfoldable pub time_spec : ℕ → TimeSpec
time_spec pioneer =
    if pioneer == no_pioneer
    then disarmed
    else record { tv_sec = pioneer / 1000; tv_nsec = pioneer % 1000 * 1000000 }

unfoldable pub reset_timer_queue : TimerQueue → TimerQueue
reset_timer_queue q = record q { alarm = time_spec q.pioneer }

-- `std::swap` of two events and the two writes of `m_position` behind it.
unfoldable pub swap_events : TimerQueue → ℕ → ℕ → TimerQueue
swap_events q i j =
    let l = set (set q.event_list i (event_at q.event_list j)) j (event_at q.event_list i) in
    record q { event_list = l; position = insert (id_at l j) j (insert (id_at l i) i q.position) }

-- The loop of `heapAdd`. C++ truncates (0 - 1) / 2 to 0, as ℕ does.
unfoldable pub rise : ℕ → TimerQueue → ℕ → TimerQueue
rise zero q curr = q
rise (suc fuel) q curr =
    let previous = (curr - 1) / 2 in
    let rest = rise fuel (swap_events q curr previous) previous in
    if ltb (ts_at q.event_list curr) (ts_at q.event_list previous) then rest else q

unfoldable pub push_event : TimerQueue → TimerEvent → TimerQueue
push_event q te = record q {
  event_list = q.event_list ++ te ∷ [];
  position = insert te.timer_id q.count q.position;
  count = q.count + 1;
}

unfoldable pub heap_add : TimerQueue → TimerEvent → TimerQueue
heap_add q te = rise (q.count + 1) (push_event q te) q.count

-- Arms the timerfd anew if the first event is due earlier than the alarm was.
unfoldable pub rearm_if_earlier : TimerQueue → TimerQueue
unfolding reset_timer_queue
rearm_if_earlier q =
    if ltb (ts_at q.event_list 0) q.pioneer
    then reset_timer_queue (record q { pioneer = ts_at q.event_list 0 })
    else q

-- The new id is `q.next_timer_id`.
unfoldable pub add_timer : TimerQueue → TimerEvent → ℕ × TimerQueue
add_timer q te =
    let te' = record te { timer_id = q.next_timer_id } in
    let q' = heap_add (record q { next_timer_id = q.next_timer_id + 1 }) te' in
    (te'.timer_id, rearm_if_earlier q')

unfoldable pub left_or : TimerQueue → ℕ → ℕ
left_or q pos =
    if ltb (2 * pos + 1) q.count && ltb (ts_at q.event_list (2 * pos + 1)) (ts_at q.event_list pos)
    then 2 * pos + 1
    else pos

-- `min_pos` of `heapHold`
unfoldable pub min_pos : TimerQueue → ℕ → ℕ
unfolding left_or
min_pos q pos =
    let m = left_or q pos in
    if ltb (2 * pos + 2) q.count && ltb (ts_at q.event_list (2 * pos + 2)) (ts_at q.event_list m)
    then 2 * pos + 2
    else m

unfoldable pub heap_hold : ℕ → TimerQueue → ℕ → TimerQueue
heap_hold zero q pos = q
heap_hold (suc fuel) q pos =
    let m = min_pos q pos in
    let rest = heap_hold fuel (swap_events q m pos) m in if m == pos then q else rest

-- `heapDel` before its call of `heapHold`
unfoldable pub move_last_to : TimerQueue → ℕ → TimerQueue
move_last_to q pos =
    let to_del = event_at q.event_list pos in
    let tmp = event_at q.event_list (q.count - 1) in
    record q {
      event_list = drop_last (set q.event_list pos tmp);
      position = erase to_del.timer_id (insert tmp.timer_id pos q.position);
      count = q.count - 1;
    }

unfoldable pub heap_del : TimerQueue → ℕ → TimerQueue
heap_del q pos = heap_hold q.count (move_last_to q pos) pos

-- The branch `m_count > 1` of `heapPop` before its call of `heapHold`
unfoldable pub move_last_to_root : TimerQueue → TimerQueue
move_last_to_root q =
    let tmp = event_at q.event_list (q.count - 1) in
    record q {
      event_list = drop_last (set q.event_list 0 tmp);
      position = insert tmp.timer_id 0 (erase (id_at q.event_list 0) q.position);
      count = q.count - 1;
    }

unfoldable pub heap_pop : TimerQueue → TimerQueue
heap_pop q =
    if q.count == 0
    then q
    else if ltb 1 q.count
    then heap_hold q.count (move_last_to_root q) 0
    else record q { event_list = []; position = erase (id_at q.event_list 0) q.position; count = 0 }

-- What `delTimer` does to the alarm once the event is out of the heap.
unfoldable pub rearm_after_del : TimerQueue → TimerQueue
unfolding reset_timer_queue rearm_if_earlier
rearm_after_del q =
    if q.count == 0
    then reset_timer_queue (record q { pioneer = no_pioneer })
    else rearm_if_earlier q

-- An unknown id is logged through `m_logger`, which no constructor sets: `none` is that null
-- dereference.
unfoldable pub del_timer : TimerQueue → ℕ → Option TimerQueue
del_timer q timer_id = elim (lookup timer_id q.position) [
  | none ↦ none
  | some pos ↦ some (rearm_after_del (heap_del q pos))
]

-- The queue, the fired events and the periodic ones to be added again.
pub record Firing : Type 0 where
  pub queue : TimerQueue
  pub fired : List TimerEvent
  pub reuse : List TimerEvent

-- A periodic event with its next due time.
unfoldable pub next_round : TimerEvent → TimerEvent
next_round te = record te { ts = (te.ts + te.interval) % uint64_mod }

unfoldable pub fire_one : Firing → Firing
unfolding next_round
fire_one s =
    let te = event_at s.queue.event_list 0 in
    record {
      queue = heap_pop s.queue;
      fired = s.fired ++ te ∷ [];
      reuse = if te.interval == 0 then s.reuse else s.reuse ++ next_round te ∷ [];
    }

abbrev pub is_due : TimerQueue → Bool
is_due q = ltb 0 q.count && (q.pioneer == ts_at q.event_list 0)

-- The `while` loop of `getFiredTimerEvents`; a round removes an event, so `m_count` rounds do.
unfoldable pub fire_loop : ℕ → Firing → Firing
fire_loop zero s = s
fire_loop (suc fuel) s =
    let rest = fire_loop fuel (fire_one s) in if is_due s.queue then rest else s

unfoldable pub add_all : TimerQueue → List TimerEvent → TimerQueue
add_all q [] = q
add_all q (te ∷ tes) = add_all (add_timer q te).1 tes

-- The last step of `getFiredTimerEvents`: the alarm follows the first event left.
unfoldable pub settle : TimerQueue → TimerQueue
unfolding reset_timer_queue
settle q =
    reset_timer_queue
      (record q { pioneer = if q.count == 0 then no_pioneer else ts_at q.event_list 0 })

unfoldable pub get_fired_timer_events : TimerQueue → List TimerEvent × TimerQueue
get_fired_timer_events q =
    let s = fire_loop q.count (record { queue = q; fired = []; reuse = [] }) in
    (s.fired, settle (add_all s.queue s.reuse))
