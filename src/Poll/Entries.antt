-- ===== src/Poll/Entries.antt =====
-- The entries of the array `m_fds` as a map from descriptors to events.
use posix_bsp_perf.Prelude.{
  ℕ, ◌≡◌, refl, ◌∙◌, Option, none, some, List, [], ◌∷◌, ◌++◌, length, ◌==◌, if◌then◌else◌, arith,
  ◌≤◌, if_elim,
}
use posix_bsp_perf.Registry.{Mask}
use posix_bsp_perf.Poll.{PollFd, Revents, set_events, remove_fd, set_revents}

-- The events of the first entry of a descriptor.
unfoldable pub events_of : ℕ → List PollFd → Option Mask
events_of fd [] = none
events_of fd (p ∷ ps) = if p.fd == fd then some p.events else events_of fd ps

-- No descriptor has two entries.
abbrev pub Single : List PollFd → Type 0
Single [] = Unit
Single (p ∷ ps) = (events_of p.fd ps ≡ none) × Single ps

module _ (fd : ℕ) where
  pub events_of-append :
      (g : ℕ) (mask : Mask) (stale : Revents) (ps : List PollFd)
      → events_of fd ps ≡ none
      → events_of g (ps ++ record { fd = fd; events = mask; revents = stale } ∷ [])
        ≡ (if fd == g then some mask else events_of g ps)
  unfolding events_of
  events_of-append g mask stale [] e = ground arith
  events_of-append g mask stale (p ∷ ps) e = ground (arith, events_of-append g mask stale ps)

  pub append-Single :
      (mask : Mask) (stale : Revents) (ps : List PollFd)
      → events_of fd ps ≡ none
      → Single ps
      → Single (ps ++ record { fd = fd; events = mask; revents = stale } ∷ [])
  unfolding events_of
  append-Single mask stale [] e s = (refl, tt)
  append-Single mask stale (p ∷ ps) e s = (
    ground (arith, s.0, events_of-append p.fd mask stale ps),
    append-Single mask stale ps (ground arith) s.1,
  )

  pub events_of-set_events :
      (g : ℕ) (mask old : Mask) (ps : List PollFd)
      → events_of fd ps ≡ some old
      → events_of g (set_events fd mask ps) ≡ (if fd == g then some mask else events_of g ps)
  unfolding events_of set_events
  events_of-set_events g mask old [] e = cc
  events_of-set_events g mask old (p ∷ ps) e = ground (arith, events_of-set_events g mask old ps)

  events_of-set_events-none :
      (g : ℕ) (mask : Mask) (ps : List PollFd)
      → events_of g ps ≡ none
      → events_of g (set_events fd mask ps) ≡ none
  unfolding events_of set_events
  events_of-set_events-none g mask [] e = refl
  events_of-set_events-none g mask (p ∷ ps) e = ground (arith, events_of-set_events-none g mask ps)

  pub set_events-Single :
      (mask : Mask) (ps : List PollFd) → Single ps → Single (set_events fd mask ps)
  unfolding set_events
  set_events-Single mask [] s = tt
  set_events-Single mask (p ∷ ps) s =
      if_elim Single (p.fd == fd) (λ e. s)
        (λ e. (events_of-set_events-none p.fd mask ps s.0, set_events-Single mask ps s.1))

  pub events_of-remove_fd :
      (g : ℕ) (ps : List PollFd)
      → Single ps
      → events_of g (remove_fd fd ps) ≡ (if fd == g then none else events_of g ps)
  unfolding events_of remove_fd
  events_of-remove_fd g [] s = ground arith
  events_of-remove_fd g (p ∷ ps) s = ground (arith, s.0, events_of-remove_fd g ps s.1)

  pub remove_fd-Single : (ps : List PollFd) → Single ps → Single (remove_fd fd ps)
  unfolding remove_fd
  remove_fd-Single [] s = tt
  remove_fd-Single (p ∷ ps) s =
      if_elim Single (p.fd == fd) (λ e. s.1)
        (λ e. (ground (arith, s.0, events_of-remove_fd p.fd ps s.1), remove_fd-Single ps s.1))

pub length-set_events :
    (fd : ℕ) (mask : Mask) (ps : List PollFd) → length (set_events fd mask ps) ≡ length ps
unfolding set_events
length-set_events fd mask [] = refl
length-set_events fd mask (p ∷ ps) = ground (arith, length-set_events fd mask ps)

pub length-remove_fd : (fd : ℕ) (ps : List PollFd) → length (remove_fd fd ps) ≤ length ps
unfolding remove_fd
length-remove_fd fd [] = omega arith
length-remove_fd fd (p ∷ ps) = ground (arith, length-remove_fd fd ps)

-- The answers of `poll` change no entry's descriptor or events.
pub events_of-set_revents :
    (answers : ℕ → Revents) (g : ℕ) (ps : List PollFd)
    → events_of g (set_revents answers ps) ≡ events_of g ps
unfolding events_of set_revents
events_of-set_revents answers g [] = refl
events_of-set_revents answers g (p ∷ ps) = ground (arith, events_of-set_revents answers g ps)

pub set_revents-Single :
    (answers : ℕ → Revents) (ps : List PollFd) → Single ps → Single (set_revents answers ps)
unfolding set_revents
set_revents-Single answers [] s = tt
set_revents-Single answers (p ∷ ps) s =
    (events_of-set_revents answers p.fd ps ∙ s.0, set_revents-Single answers ps s.1)
