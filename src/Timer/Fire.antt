-- ===== src/Timer/Fire.antt =====
-- `getFiredTimerEvents` of TimerQueue.cpp.
use posix_bsp_perf.Prelude.{
  ◌%◌, Bool, ℕ, zero, suc, ◌+◌, ◌≤◌, ◌<◌, ◌≡◌, refl, sym, ◌∙◌, ap, subst, List, [], ◌∷◌, ◌++◌,
  arith, ◌==◌, if◌then◌else◌, if_elim, length, length-append, All, All-append, All-map, true, false,
}
use posix_bsp_perf.Timer.{
  TimerEvent, TimerQueue, Firing, uint64_mod, time_spec, event_at, next_round, fire_one, fire_loop,
  no_pioneer, is_due, add_all, settle, get_fired_timer_events,
}
use posix_bsp_perf.Timer.Index.{Indexed}
use posix_bsp_perf.Timer.Keep.{heap_pop-Indexed, add_all-Indexed}
use posix_bsp_perf.Timer.Order.{IsHeap, root_first}
use posix_bsp_perf.Timer.Sink.{heap_pop-IsHeap}
use posix_bsp_perf.Timer.Counts.{heap_pop-count, heap_pop-pioneer, add_all-count}
use posix_bsp_perf.Timer.Every.{Every, heap_pop-Every, add_all-Every}
use posix_bsp_perf.Timer.Rise.{add_all-IsHeap}
use posix_bsp_perf.Timer.Tally.{PassesAnyId, tally, tally-add_all, tally-fire_loop}

-- The next rounds of the periodic events among the fired ones, in order.
abbrev pub next_rounds : List TimerEvent → List TimerEvent
next_rounds [] = []
next_rounds (te ∷ tes) =
    if te.interval == 0 then next_rounds tes else next_round te ∷ next_rounds tes

-- The same by their due times, which do not wrap.
abbrev pub later_rounds : List TimerEvent → List TimerEvent
later_rounds [] = []
later_rounds (te ∷ tes) =
    if te.interval == 0
    then later_rounds tes
    else record te { ts = te.ts + te.interval } ∷ later_rounds tes

next_rounds-later_rounds :
    (p : ℕ) (tes : List TimerEvent)
    → All (λ te. (te.ts ≡ p) × (te.ts + te.interval < uint64_mod)) tes
    → next_rounds tes ≡ later_rounds tes
unfolding next_round
next_rounds-later_rounds p [] a = refl
next_rounds-later_rounds p (te ∷ tes) ((d, small), a) =
    let rest = next_rounds-later_rounds p tes a in
    let whole : (te.ts + te.interval) % uint64_mod ≡ te.ts + te.interval = omega (arith, small) in
    let round : next_round te ≡ record te { ts = te.ts + te.interval } =
      ap (λ t. record te { ts = t }) whole in
    ap (λ x. if te.interval == 0 then next_rounds tes else x ∷ next_rounds tes) round
    ∙ ap (λ l. if te.interval == 0 then l else record te { ts = te.ts + te.interval } ∷ l) rest

next_rounds-append :
    (tes : List TimerEvent) (te : TimerEvent)
    → next_rounds (tes ++ te ∷ [])
      ≡ (if te.interval == 0 then next_rounds tes else next_rounds tes ++ next_round te ∷ [])
next_rounds-append [] te = ground arith
next_rounds-append (x ∷ tes) te = ground (arith, next_rounds-append tes te)

-- An event that is not due before `p` and whose next due time does not wrap.
abbrev pub Regular : ℕ → TimerEvent → Type 0
Regular p te = (p ≤ te.ts) × (te.ts + te.interval < uint64_mod)

-- What holds of the loop's state in every round, for the due time `p` and `n` events in all.
record FireInv (p n : ℕ) (s : Firing) : Type 0 where
  indexed : Indexed s.queue
  heap : IsHeap s.queue
  alarm : s.queue.pioneer ≡ p
  regular : Every (Regular p) s.queue
  due : All (λ te. (te.ts ≡ p) × (te.ts + te.interval < uint64_mod)) s.fired
  again : s.reuse ≡ next_rounds s.fired
  total : length s.fired + s.queue.count ≡ n

fire_one-FireInv :
    (p n : ℕ) (s : Firing) → is_due s.queue ≡ true → FireInv p n s → FireInv p n (fire_one s)
unfolding fire_one
fire_one-FireInv p n s d v = record {
  indexed = heap_pop-Indexed s.queue v.indexed;
  heap = heap_pop-IsHeap s.queue v.indexed v.heap;
  alarm = heap_pop-pioneer s.queue ∙ v.alarm;
  regular = heap_pop-Every (Regular p) s.queue v.indexed v.regular;
  due =
      All-append _ s.fired (event_at s.queue.event_list 0 ∷ []) v.due
        ((ground arith, (v.regular 0 first).1), tt);
  again = again_append;
  total = omega (
    arith,
    length-append s.fired (event_at s.queue.event_list 0 ∷ []),
    heap_pop-count s.queue,
    v.total,
    first,
  );
}
  where
    first : 0 < s.queue.count
    first = ground arith

    again_append : (fire_one s).reuse ≡ next_rounds (fire_one s).fired
    again_append =
        ground (arith, v.again, next_rounds-append s.fired (event_at s.queue.event_list 0))

fire_loop-FireInv :
    (fuel p n : ℕ) (s : Firing)
    → s.queue.count ≤ fuel
    → FireInv p n s
    → FireInv p n (fire_loop fuel s) × (is_due (fire_loop fuel s).queue ≡ false)
unfolding fire_loop
fire_loop-FireInv zero p n s f v = (v, ground arith)
fire_loop-FireInv (suc fuel) p n s f v =
    if_elim (λ (r : Firing). FireInv p n r × (is_due r.queue ≡ false)) (is_due s.queue)
      (λ d.
        fire_loop-FireInv fuel p n (fire_one s)
          (unfold fire_one in ground (arith, heap_pop-count s.queue)) (fire_one-FireInv p n s d v))
      (λ e. (v, e))

-- What `getFiredTimerEvents` promises of the fired events and of the queue that it leaves.
pub record IsRound (q : TimerQueue) (r : List TimerEvent × TimerQueue) : Type 0 where
  pub due : All (λ te. te.ts ≡ q.pioneer) r.0
  pub indexed : Indexed r.1
  pub heap : IsHeap r.1
  pub later : Every (λ te. q.pioneer < te.ts) r.1
  pub total : length r.0 + r.1.count ≡ q.count + length (later_rounds r.0)
  pub preserved :
      (test : TimerEvent → Bool)
      → PassesAnyId test
      → tally test r.0 + tally test r.1.event_list
        ≡ tally test q.event_list + tally test (later_rounds r.0)
  pub alarm : r.1.alarm ≡ time_spec r.1.pioneer
  pub first : Every (λ te. r.1.pioneer ≤ te.ts) r.1
  pub attained : 0 < r.1.count → (event_at r.1.event_list 0).ts ≡ r.1.pioneer
  pub idle : r.1.count ≡ 0 → r.1.pioneer ≡ no_pioneer

later_of_settled :
    (p : ℕ) (q : TimerQueue)
    → IsHeap q
    → q.pioneer ≡ p
    → Every (Regular p) q
    → is_due q ≡ false
    → Every (λ te. p < te.ts) q
later_of_settled p q h e reg done i r =
    ground (arith, root_first q i h r, reg 0 (omega arith), done)

next_rounds_later :
    (p : ℕ) (tes : List TimerEvent)
    → All (λ te. (te.ts ≡ p) × (te.ts + te.interval < uint64_mod)) tes
    → All (λ te. p < te.ts) (next_rounds tes)
unfolding next_round
next_rounds_later p [] a = tt
next_rounds_later p (te ∷ tes) (d, a) =
    let ih = next_rounds_later p tes a in
    if_elim (All (λ te. p < te.ts)) (te.interval == 0) (λ once. ih) (λ periodic. (ground arith, ih))

settle-IsRound :
    (q s : TimerQueue) (fired : List TimerEvent)
    → Indexed s
    → IsHeap s
    → All (λ te. te.ts ≡ q.pioneer) fired
    → Every (λ te. q.pioneer < te.ts) s
    → length fired + s.count ≡ q.count + length (later_rounds fired)
    → ((test : TimerEvent → Bool)
        → PassesAnyId test
        → tally test fired + tally test s.event_list
          ≡ tally test q.event_list + tally test (later_rounds fired))
    → IsRound q (fired, settle s)
unfolding settle
settle-IsRound q s fired v h due later total preserved = record {
  preserved = preserved;
  attained = λ some_left. ground (arith, some_left);
  idle = λ none_left. ground (arith, none_left);
  due = due;
  indexed = record { size = v.size; placed = v.placed; live = v.live; fresh = v.fresh };
  heap = h;
  later = later;
  total = total;
  alarm = refl;
  first = λ i r. ground (arith, root_first s i h r);
}

-- On a heap of indexed events that are not due before the alarm, and whose next due times do not
-- wrap, the call fires events due at the alarm only and leaves none of them: each event left is due
-- later. No event is lost: whatever is asked of an event but its id holds of as many of the fired ones and
-- those left as of the old ones and of the next rounds of the periodic events fired, which differ
-- from these in their due time only. The result is again an indexed heap, with the alarm set to the due
-- time of its first event, before which none is due, or to none when no event is left.
pub get_fired_timer_events-IsRound :
    (q : TimerQueue)
    → Indexed q
    → IsHeap q
    → Every (Regular q.pioneer) q
    → IsRound q (get_fired_timer_events q)
unfolding get_fired_timer_events
get_fired_timer_events-IsRound q v h reg =
    let start : Firing = record { queue = q; fired = []; reuse = [] } in
    let s = fire_loop q.count start in
    let run = fire_loop-FireInv q.count q.pioneer q.count start (omega arith) (record {
      indexed = v;
      heap = h;
      alarm = refl;
      regular = reg;
      due = tt;
      again = refl;
      total = omega arith;
    }) in
    let w = run.0 in
    let later = later_of_settled q.pioneer s.queue w.heap w.alarm w.regular run.1 in
    let again : All (λ te. q.pioneer < te.ts) s.reuse =
      subst (All (λ te. q.pioneer < te.ts)) (sym w.again)
        (next_rounds_later q.pioneer s.fired w.due) in
    settle-IsRound q (add_all s.queue s.reuse) s.fired (add_all-Indexed s.queue s.reuse w.indexed)
      (add_all-IsHeap s.queue s.reuse w.indexed w.heap) (All-map _ _ s.fired (λ te d. d.0) w.due)
      (add_all-Every (λ te. q.pioneer < te.ts) s.queue s.reuse (λ te t l. l) w.indexed again later)
      (omega (
        arith,
        add_all-count s.queue s.reuse,
        w.total,
        ap length w.again,
        ap length (next_rounds-later_rounds q.pioneer s.fired w.due),
      ))
      (λ test any.
        let added = tally-add_all test s.queue s.reuse any w.indexed in
        let popped = tally-fire_loop test q.count start v in
        omega (
          arith,
          added,
          popped,
          ap (tally test) (w.again ∙ next_rounds-later_rounds q.pioneer s.fired w.due),
        ))
