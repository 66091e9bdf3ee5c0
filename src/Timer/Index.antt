-- ===== src/Timer/Index.antt =====
-- The position map of TimerQueue.cpp: it lists exactly the events of the heap, each at its index.
use posix_bsp_perf.Prelude.{
  ℕ, ◌+◌, ◌-◌, ◌<◌, ◌≡◌, ◌≢◌, ◌∙◌, refl, sym, some, [], ◌∷◌, ◌++◌, arith, ◌==◌, if◌then◌else◌,
  length, set, drop_last, length-append, length-set, lookup, insert, erase, lookup-insert,
  lookup-erase,
}
use posix_bsp_perf.Timer.Events.{event_at-set, event_at-push, event_at-replace, length-replace}
use posix_bsp_perf.Timer.{
  TimerEvent, TimerQueue, event_at, id_at, swap_events, push_event, move_last_to, move_last_to_root,
}

-- Every event stands at the position listed for its id, every listed id is that of an event in
-- the heap, and ids to come are new.
pub record Indexed (q : TimerQueue) : Type 0 where
  pub size : length q.event_list ≡ q.count
  pub placed : (i : ℕ) → i < q.count → lookup (id_at q.event_list i) q.position ≡ some i
  pub live : (t p : ℕ) → lookup t q.position ≡ some p → (p < q.count) × (id_at q.event_list p ≡ t)
  pub fresh : (i : ℕ) → i < q.count → id_at q.event_list i < q.next_timer_id

-- The list after `swap_events`.
pub event_at-swap_events :
    (q : TimerQueue) (i j c : ℕ)
    → i < length q.event_list
    → j < length q.event_list
    → event_at (swap_events q i j).event_list c ≡ (
        if j == c
        then event_at q.event_list i
        else if i == c
        then event_at q.event_list j
        else event_at q.event_list c)
unfolding swap_events
event_at-swap_events q i j c hi hj = ground (
  arith,
  event_at-set (set q.event_list i (event_at q.event_list j)) j c (event_at q.event_list i),
  event_at-set q.event_list i c (event_at q.event_list j),
  length-set q.event_list i (event_at q.event_list j),
)

pub length-swap_events :
    (q : TimerQueue) (i j : ℕ) → length (swap_events q i j).event_list ≡ length q.event_list
unfolding swap_events
length-swap_events q i j = ground (
  arith,
  length-set (set q.event_list i (event_at q.event_list j)) j (event_at q.event_list i),
  length-set q.event_list i (event_at q.event_list j),
)

lookup-swap_events :
    (q : TimerQueue) (i j t : ℕ)
    → i < length q.event_list
    → j < length q.event_list
    → i ≢ j
    → lookup t (swap_events q i j).position ≡ (
        if id_at q.event_list i == t
        then some j
        else if id_at q.event_list j == t
        then some i
        else lookup t q.position)
unfolding swap_events
lookup-swap_events q i j t hi hj ne =
    let l = (swap_events q i j).event_list in
    ground (
      arith,
      lookup-insert (id_at l j) t j (insert (id_at l i) i q.position),
      lookup-insert (id_at l i) t i q.position,
      event_at-swap_events q i j i hi hj,
      event_at-swap_events q i j j hi hj,
    )

pub count-swap_events : (q : TimerQueue) (i j : ℕ) → (swap_events q i j).count ≡ q.count
unfolding swap_events
count-swap_events q i j = refl

pub next_id-swap_events :
    (q : TimerQueue) (i j : ℕ) → (swap_events q i j).next_timer_id ≡ q.next_timer_id
unfolding swap_events
next_id-swap_events q i j = refl

module _ (q : TimerQueue) (v : Indexed q) (i j : ℕ) (hi : i < q.count) (hj : j < q.count)
    (ne : i ≢ j) where
  entry :
      (c : ℕ)
      → event_at (swap_events q i j).event_list c ≡ (
          if j == c
          then event_at q.event_list i
          else if i == c
          then event_at q.event_list j
          else event_at q.event_list c)
  entry c = event_at-swap_events q i j c (omega (arith, v.size)) (omega (arith, v.size))

  listed :
      (t : ℕ)
      → lookup t (swap_events q i j).position ≡ (
          if id_at q.event_list i == t
          then some j
          else if id_at q.event_list j == t
          then some i
          else lookup t q.position)
  listed t = lookup-swap_events q i j t (omega (arith, v.size)) (omega (arith, v.size)) ne

  -- Swapping two events keeps the map exact.
  pub swap_events-Indexed : Indexed (swap_events q i j)
  swap_events-Indexed = record {
    size = length-swap_events q i j ∙ v.size ∙ sym (count-swap_events q i j);
    placed = λ c h. ground (
      arith,
      entry c,
      listed (id_at (swap_events q i j).event_list c),
      v.placed c,
      v.placed i hi,
      v.placed j hj,
      count-swap_events q i j,
    );
    live = λ t p e. ground (
      arith,
      entry p,
      listed t,
      v.live t p,
      v.placed i hi,
      v.placed j hj,
      count-swap_events q i j,
    );
    fresh = λ c h. ground (
      arith,
      entry c,
      v.fresh c,
      v.fresh i hi,
      v.fresh j hj,
      count-swap_events q i j,
      next_id-swap_events q i j,
    );
  }

-- Adding an event under a fresh id keeps the map exact.
pub push_event-Indexed :
    (q : TimerQueue) (te : TimerEvent)
    → Indexed q
    → te.timer_id ≡ q.next_timer_id
    → Indexed (push_event (record q { next_timer_id = q.next_timer_id + 1 }) te)
unfolding push_event
push_event-Indexed q te v e = record {
  size = omega (arith, length-append q.event_list (te ∷ []), v.size);
  placed = λ c h. ground (
    arith,
    event_at-push q.event_list te c,
    lookup-insert te.timer_id (id_at (q.event_list ++ te ∷ []) c) q.count q.position,
    v.placed c,
    v.fresh c,
    v.size,
  );
  live = λ t p h. ground (
    arith,
    event_at-push q.event_list te p,
    lookup-insert te.timer_id t q.count q.position,
    v.live t p,
    v.fresh p,
    v.size,
  );
  fresh = λ c h. ground (arith, event_at-push q.event_list te c, v.fresh c, v.size);
}

module _ (q : TimerQueue) (v : Indexed q) (pos : ℕ) (hp : pos < q.count) where
  abbrev last_event : TimerEvent
  last_event = event_at q.event_list (q.count - 1)

  pub move_last_to-Indexed : Indexed (move_last_to q pos)
  unfolding move_last_to
  move_last_to-Indexed = record {
    size = omega (arith, length-replace q.event_list pos last_event, v.size);
    placed = λ c h.
        let t = id_at (drop_last (set q.event_list pos last_event)) c in
        ground (
          arith,
          event_at-replace q.event_list pos c last_event,
          lookup-erase (id_at q.event_list pos) t (insert last_event.timer_id pos q.position),
          lookup-insert last_event.timer_id t pos q.position,
          v.placed c,
          v.placed pos,
          v.placed (q.count - 1),
          v.size,
        );
    live = λ t p h. ground (
      arith,
      event_at-replace q.event_list pos p last_event,
      lookup-erase (id_at q.event_list pos) t (insert last_event.timer_id pos q.position),
      lookup-insert last_event.timer_id t pos q.position,
      v.live t p,
      v.placed pos,
      v.placed (q.count - 1),
      v.size,
    );
    fresh = λ c h. ground (
      arith,
      event_at-replace q.event_list pos c last_event,
      v.fresh c,
      v.fresh (q.count - 1),
      v.size,
    );
  }

module _ (q : TimerQueue) (v : Indexed q) (many : 1 < q.count) where
  pub move_last_to_root-Indexed : Indexed (move_last_to_root q)
  unfolding move_last_to_root
  move_last_to_root-Indexed =
      let te = event_at q.event_list (q.count - 1) in
      record {
        size = omega (arith, length-replace q.event_list 0 te, v.size);
        placed = λ c h.
            let t = id_at (drop_last (set q.event_list 0 te)) c in
            ground (
              arith,
              event_at-replace q.event_list 0 c te,
              lookup-insert te.timer_id t 0 (erase (id_at q.event_list 0) q.position),
              lookup-erase (id_at q.event_list 0) t q.position,
              v.placed c,
              v.placed 0,
              v.placed (q.count - 1),
              v.size,
            );
        live = λ t p h. ground (
          arith,
          event_at-replace q.event_list 0 p te,
          lookup-insert te.timer_id t 0 (erase (id_at q.event_list 0) q.position),
          lookup-erase (id_at q.event_list 0) t q.position,
          v.live t p,
          v.placed 0,
          v.placed (q.count - 1),
          v.size,
        );
        fresh = λ c h.
            ground (
              arith,
              event_at-replace q.event_list 0 c te,
              v.fresh c,
              v.fresh (q.count - 1),
              v.size,
            );
      }
