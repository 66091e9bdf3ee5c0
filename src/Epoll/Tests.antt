-- ===== src/Epoll/Tests.antt =====
-- Runs of the loop over epoll on a kernel that takes descriptors below a limit.
use mathlib.Core.Option.{some-injective}
use posix_bsp_perf.Prelude.{
  ℕ, ◌≡◌, refl, ap, subst, true, false, Bool, Option, none, some, [], ◌∷◌, Map, lookup, insert,
  erase, lookup-insert, lookup-erase, ltb, ◌==◌, if◌then◌else◌,
}
use posix_bsp_perf.Registry.{Mask, epollin, epollout, interest}
use posix_bsp_perf.Poll.{new_event, set_callback}
use posix_bsp_perf.Poll.Synced.{held}
use posix_bsp_perf.Epoll.{
  del_io_mask, CtlOp, ctl_add, ctl_mod, ctl_del, EventLoopEpoll, Fired, add_io_event, del_io_event,
  fire_all,
}
use posix_bsp_perf.Epoll.Keeps.{set_to, Obeys, Together}
use posix_bsp_perf.Epoll.Refine.{
  add, del_mask, watched, Refines, promised_all, serve, serve_all, serve_all-Refines,
}
use posix_bsp_perf.Epoll.Failing.{add_io_event_sticks, fire_all-del_io_event}

abbrev when : Bool → Map Mask → Option (Map Mask)
when true list = some list
when false list = none

unfoldable ctl : ℕ → CtlOp → ℕ → Mask → Map Mask → Option (Map Mask)
ctl limit ctl_add fd mask list = when (ltb fd limit) (insert fd mask list)
ctl limit ctl_mod fd mask list = when (held (lookup fd list)) (insert fd mask list)
ctl limit ctl_del fd mask list = when (held (lookup fd list)) (erase fd list)

when-some : (b : Bool) (list list' : Map Mask) → when b list ≡ some list' → list ≡ list'
when-some true list list' h = some-injective list list' h
when-some false list list' h = absurd (cc)

ctl-sets :
    (limit : ℕ) (op : CtlOp) (fd g : ℕ) (mask : Mask) (list list' : Map Mask)
    → ctl limit op fd mask list ≡ some list'
    → lookup g list' ≡ (if fd == g then set_to op mask else lookup g list)
unfolding ctl
ctl-sets limit ctl_add fd g mask list list' e =
    subst (λ l. lookup g l ≡ (if fd == g then some mask else lookup g list))
      (when-some (ltb fd limit) (insert fd mask list) list' e) (lookup-insert fd g mask list)
ctl-sets limit ctl_mod fd g mask list list' e =
    subst (λ l. lookup g l ≡ (if fd == g then some mask else lookup g list))
      (when-some (held (lookup fd list)) (insert fd mask list) list' e)
      (lookup-insert fd g mask list)
ctl-sets limit ctl_del fd g mask list list' e =
    subst (λ l. lookup g l ≡ (if fd == g then none else lookup g list))
      (when-some (held (lookup fd list)) (erase fd list) list' e) (lookup-erase fd g list)

ctl-absent :
    (limit : ℕ) (fd : ℕ) (mask : Mask) (list : Map Mask)
    → lookup fd list ≡ none
    → ctl limit ctl_mod fd mask list ≡ none
unfolding ctl
ctl-absent limit fd mask list e = ap (λ x. when (held x) (insert fd mask list)) e

ctl-Obeys : (limit : ℕ) → Obeys (ctl limit)
ctl-Obeys limit = record { sets = ctl-sets limit; absent = ctl-absent limit }

abbrev empty : EventLoopEpoll
empty = record { io_events = []; pending_factors = []; listening = []; interest_list = [] }

empty-Together : Together empty
unfolding lookup
empty-Together = record { same = λ g. refl; heard = λ g. refl }

empty-Refines : Refines [] empty
unfolding lookup interest watched
empty-Refines g = refl

serve_all-Refines_example :
    Together
      (serve_all (ctl 100) (add 5 1 epollin ∷ add 5 2 epollout ∷ del_mask 5 epollin ∷ []) empty).1
    × Refines
        (promised_all (add 5 1 epollin ∷ add 5 2 epollout ∷ del_mask 5 epollin ∷ []) [])
        (serve_all (ctl 100) (add 5 1 epollin ∷ add 5 2 epollout ∷ del_mask 5 epollin ∷ []) empty).1
unfolding serve_all serve add_io_event del_io_mask ctl lookup insert new_event set_callback
serve_all-Refines_example =
    serve_all-Refines (ctl 100) (add 5 1 epollin ∷ add 5 2 epollout ∷ del_mask 5 epollin ∷ []) []
      empty (ctl-Obeys 100) empty-Together empty-Refines refl

add_io_event_sticks_run :
    (add_io_event (ctl 1000) 200 2 epollin (add_io_event (ctl 100) 200 1 epollin empty).1).0 ≡ false
unfolding add_io_event ctl lookup insert new_event set_callback
add_io_event_sticks_run =
    add_io_event_sticks (ctl 100) (ctl 1000) 200 1 2 epollin epollin empty (ctl-Obeys 1000)
      empty-Together refl refl

abbrev fired : ℕ → Fired
fired fd = record { fd = fd; events = record { readable = true; writable = false; hung = false } }

abbrev two : EventLoopEpoll
two = (serve_all (ctl 100) (add 5 1 epollin ∷ add 6 1 epollin ∷ []) empty).1

-- Every callback deletes descriptor 6.
abbrev deletes : ℕ → ℕ → EventLoopEpoll → Option EventLoopEpoll
deletes cb fd loop = some (del_io_event (ctl 100) 6 loop).1

fire_all-del_io_event_run : fire_all (ctl 100) deletes (fired 5 ∷ fired 6 ∷ []) two ≡ none
unfolding serve_all serve add_io_event ctl lookup insert new_event set_callback
fire_all-del_io_event_run =
    fire_all-del_io_event (ctl 100) deletes (fired 5) (fired 6) []
      record { mask = epollin; read_callback = some 1; write_callback = none } 1 two refl refl refl
      refl
