-- ===== src/Epoll/Refine.antt =====
-- EventLoopEpoll.cpp keeps what IEventLoop.hpp promises, and the kernel watches just that.
use posix_bsp_perf.Prelude.{
  ℕ, ◌≡◌, refl, sym, ap, subst, Bool, true, Option, none, some, Option-cases, Bool-cases, inl, inr,
  List, [], ◌∷◌, Map, lookup, insert, erase, lookup-insert, lookup-erase, ◌==◌, if◌then◌else◌,
  if_elim, arith,
}
use posix_bsp_perf.Registry
use posix_bsp_perf.Registry.{
  Registry, Mask, no_mask, mask_or, mask_without, is_zero, interest, interest-add_io_event,
  interest-del_io_mask, interest-del_io_event,
}
use posix_bsp_perf.Poll.{IoEvent, find_event, new_event}
use posix_bsp_perf.Epoll.{
  CtlOp, ctl_del, ctl_mod, after_ctl, EventLoopEpoll, add_io_event, del_io_mask, del_io_event,
}
use posix_bsp_perf.Epoll.Keeps.{
  Obeys, Together, add_io_event-Together, del_io_mask-Together, del_io_event-Together,
}

-- The mask that the loop keeps for a descriptor.
unfoldable pub watched : EventLoopEpoll → ℕ → Mask
watched loop g = (find_event (lookup g loop.io_events)).mask

abbrev pub Refines : Registry → EventLoopEpoll → Type 0
Refines r loop = (g : ℕ) → interest r g ≡ watched loop g

-- A call of a client.
pub data Request : Type 0 where
  add : (fd proc : ℕ) (mask : Mask) → Request
  del_mask : (fd : ℕ) (mask : Mask) → Request
  del : (fd : ℕ) → Request

-- What the registry makes of a call.
unfoldable pub promised : Request → Registry → Registry
promised (add fd proc mask) r = Registry.add_io_event fd mask r
promised (del_mask fd mask) r = Registry.del_io_mask fd mask r
promised (del fd) r = Registry.del_io_event fd r

unfoldable pub promised_all : List Request → Registry → Registry
unfolding promised
promised_all [] r = r
promised_all (request ∷ rest) r = promised_all rest (promised request r)

module _ (epoll_ctl : CtlOp → ℕ → Mask → Map Mask → Option (Map Mask)) where
  unfoldable pub serve : Request → EventLoopEpoll → Bool × EventLoopEpoll
  serve (add fd proc mask) loop = add_io_event epoll_ctl fd proc mask loop
  serve (del_mask fd mask) loop = del_io_mask epoll_ctl fd mask loop
  serve (del fd) loop = del_io_event epoll_ctl fd loop

  -- The calls in their order, up to one that throws.
  unfoldable pub serve_all : List Request → EventLoopEpoll → Bool × EventLoopEpoll
  unfolding serve
  serve_all [] loop = (true, loop)
  serve_all (request ∷ rest) loop =
      let served = serve request loop in
      let later = serve_all rest served.1 in if served.0 then later else served

  after_ctl-watched :
      (result : Option (Map Mask)) (thrown done : EventLoopEpoll) (g : ℕ) (mask : Mask)
      → watched thrown g ≡ mask
      → watched done g ≡ mask
      → watched (after_ctl result thrown done).1 g ≡ mask
  unfolding watched
  after_ctl-watched none thrown done g mask h k = h
  after_ctl-watched (some list) thrown done g mask h k = k

  module _ (fd : ℕ) (loop : EventLoopEpoll) where
    watched-insert :
        (ev : IoEvent) (listening : Map (Unit {0})) (g : ℕ)
        → watched (record loop { io_events = insert fd ev loop.io_events; listening = listening }) g
          ≡ (if fd == g then ev.mask else watched loop g)
    unfolding watched
    watched-insert ev listening g = ground (arith, lookup-insert fd g ev loop.io_events)

    watched-erase :
        (listening : Map (Unit {0})) (g : ℕ)
        → watched (record loop { io_events = erase fd loop.io_events; listening = listening }) g
          ≡ (if fd == g then no_mask else watched loop g)
    unfolding watched
    watched-erase listening g = ground (arith, lookup-erase fd g loop.io_events)

    watched-add_io_event :
        (proc : ℕ) (mask : Mask) (g : ℕ)
        → watched (add_io_event epoll_ctl fd proc mask loop).1 g
          ≡ (if fd == g then mask_or (watched loop fd) mask else watched loop g)
    unfolding watched add_io_event
    watched-add_io_event proc mask g =
        let ev = new_event (lookup fd loop.io_events) mask proc in
        after_ctl-watched _ _ _ g _ (watched-insert ev loop.listening g)
          (watched-insert ev (insert fd tt loop.listening) g)

    watched-del_io_event :
        (g : ℕ)
        → watched (del_io_event epoll_ctl fd loop).1 g
          ≡ (if fd == g then no_mask else watched loop g)
    unfolding watched del_io_event
    watched-del_io_event g = elim (Option-cases (lookup fd loop.io_events)) [
      | inl absent ↦ rw (absent, del_io_event, watched) (ground arith)
      | inr (ev, found) ↦
          rw (found, del_io_event)
            (after_ctl-watched _ _ _ g _ (watched-erase (erase fd loop.listening) g)
              (watched-erase (erase fd loop.listening) g))
    ]

    watched-del_io_mask :
        (mask : Mask) (g : ℕ)
        → watched (del_io_mask epoll_ctl fd mask loop).1 g
          ≡ (if fd == g then mask_without (watched loop fd) mask else watched loop g)
    unfolding watched del_io_mask
    watched-del_io_mask mask g = elim (Option-cases (lookup fd loop.io_events)) [
      | inl absent ↦ rw (absent, del_io_mask, watched) (ground arith)
      | inr (ev, found) ↦
          let left = mask_without ev.mask mask in
          let goal = λ (r : Bool × EventLoopEpoll).
            watched r.1 g
            ≡ (if fd == g then mask_without (watched loop fd) mask else watched loop g) in
          let masked : EventLoopEpoll = record loop {
            io_events = insert fd (record ev { mask = left }) loop.io_events;
          } in
          let had : watched loop fd ≡ ev.mask = rw (found, watched) refl in
          rw (found, del_io_mask)
            (if_elim goal (is_zero left)
              (λ e.
                after_ctl-watched (epoll_ctl ctl_del fd no_mask loop.interest_list)
                  (record loop { io_events = erase fd loop.io_events })
                  (record loop {
                    io_events = erase fd loop.io_events;
                    listening = erase fd loop.listening;
                  })
                  g _ (ground (arith, watched-erase loop.listening g, e, had))
                  (ground (arith, watched-erase (erase fd loop.listening) g, e, had)))
              (λ e.
                after_ctl-watched (epoll_ctl ctl_mod fd left loop.interest_list) masked masked g _
                  (ground (arith, watched-insert (record ev { mask = left }) loop.listening g, had))
                  (ground
                    (arith, watched-insert (record ev { mask = left }) loop.listening g, had))))
    ]

  serve-Refines :
      (request : Request) (r : Registry) (loop : EventLoopEpoll)
      → Refines r loop
      → Refines (promised request r) (serve request loop).1
  unfolding promised serve
  serve-Refines (add fd proc mask) r loop h g = ground (
    arith,
    h g,
    h fd,
    interest-add_io_event fd g r mask,
    watched-add_io_event fd loop proc mask g,
  )
  serve-Refines (del_mask fd mask) r loop h g =
      ground
        (arith, h g, h fd, interest-del_io_mask fd g r mask, watched-del_io_mask fd loop mask g)
  serve-Refines (del fd) r loop h g =
      ground (arith, h g, interest-del_io_event fd g r, watched-del_io_event fd loop g)

  serve-Together :
      (request : Request) (loop : EventLoopEpoll)
      → Obeys epoll_ctl
      → Together loop
      → (serve request loop).0 ≡ true
      → Together (serve request loop).1
  unfolding serve
  serve-Together (add fd proc mask) loop o t = add_io_event-Together epoll_ctl o fd loop t proc mask
  serve-Together (del_mask fd mask) loop o t = del_io_mask-Together epoll_ctl o fd loop t mask
  serve-Together (del fd) loop o t = del_io_event-Together epoll_ctl o fd loop t

  serve_all_on :
      (request : Request) (rest : List Request) (loop : EventLoopEpoll)
      → (serve request loop).0 ≡ true
      → serve_all (request ∷ rest) loop ≡ serve_all rest (serve request loop).1
  unfolding serve_all
  serve_all_on request rest loop served =
      ap (λ b. if b then serve_all rest (serve request loop).1 else serve request loop) served

  -- From a loop that keeps the interests of a registry, with its tables and the kernel's list together,
  -- calls of `addIoEvent` and both `delIoEvent`, none of which throws, lead to a loop that keeps the
  -- interests which the registry has after the same calls, with its tables and the list together.
  pub serve_all-Refines :
      (requests : List Request) (r : Registry) (loop : EventLoopEpoll)
      → Obeys epoll_ctl
      → Together loop
      → Refines r loop
      → (serve_all requests loop).0 ≡ true
      → Together (serve_all requests loop).1
        × Refines (promised_all requests r) (serve_all requests loop).1
  unfolding serve_all promised_all
  serve_all-Refines [] r loop o t h e = (t, h)
  serve_all-Refines (request ∷ rest) r loop o t h e = elim (Bool-cases (serve request loop).0) [
    | inr thrown ↦ absurd (ground (arith, thrown, e))
    | inl served ↦
        let next =
          serve_all-Refines rest (promised request r) (serve request loop).1 o
            (serve-Together request loop o t served) (serve-Refines request r loop h)
            (ground (arith, served, e)) in
        subst (λ s. Together s.1 × Refines (promised_all rest (promised request r)) s.1)
          (sym (serve_all_on request rest loop served)) next
  ]
