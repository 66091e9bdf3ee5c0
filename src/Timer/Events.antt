-- ===== src/Timer/Events.antt =====
-- The vector of timer events under the writes of TimerQueue.cpp.
use posix_bsp_perf.Prelude.{
  ℕ, suc, ◌+◌, ◌-◌, ◌<◌, ◌≡◌, ◌∙◌, ap, inl, inr, Bool-cases, List, [], ◌∷◌, ◌++◌, arith, ◌==◌,
  if◌then◌else◌, length, set, drop_last, length-set, length-drop_last, get_or-set,
  get_or-append_left, get_or-append_last, get_or-drop_last,
}
use posix_bsp_perf.Timer.{TimerEvent, no_event, event_at}

pub event_at-set :
    (l : List TimerEvent) (i j : ℕ) (v : TimerEvent)
    → i < length l
    → event_at (set l i v) j ≡ (if i == j then v else event_at l j)
unfolding event_at
event_at-set l i j v h = get_or-set l i j v no_event h

pub event_at-append :
    (l : List TimerEvent) (te : TimerEvent) (i : ℕ)
    → i < length l
    → event_at (l ++ te ∷ []) i ≡ event_at l i
unfolding event_at
event_at-append l te i h = get_or-append_left l (te ∷ []) i no_event h

pub event_at-last :
    (l : List TimerEvent) (te : TimerEvent) → event_at (l ++ te ∷ []) (length l) ≡ te
unfolding event_at
event_at-last l te = get_or-append_last l te no_event

pub event_at-drop_last :
    (l : List TimerEvent) (i : ℕ) → suc i < length l → event_at (drop_last l) i ≡ event_at l i
unfolding event_at
event_at-drop_last l i h = get_or-drop_last l i no_event h

pub event_at-push :
    (l : List TimerEvent) (te : TimerEvent) (c : ℕ)
    → c < length l + 1
    → event_at (l ++ te ∷ []) c ≡ (if c == length l then te else event_at l c)
event_at-push l te c h = elim (Bool-cases (c == length l)) [
  | inl e ↦ ground (arith, event_at-last l te)
  | inr e ↦ ground (arith, event_at-append l te c)
]

-- The list after its last event has replaced that at `pos`.
pub event_at-replace :
    (l : List TimerEvent) (pos c : ℕ) (te : TimerEvent)
    → pos < length l
    → suc c < length l
    → event_at (drop_last (set l pos te)) c ≡ (if pos == c then te else event_at l c)
event_at-replace l pos c te hp hc =
    ground
      (arith, event_at-drop_last (set l pos te) c, event_at-set l pos c te, length-set l pos te)

pub length-replace :
    (l : List TimerEvent) (pos : ℕ) (te : TimerEvent)
    → length (drop_last (set l pos te)) ≡ length l - 1
length-replace l pos te = length-drop_last (set l pos te) ∙ ap (λ n. n - 1) (length-set l pos te)
