-- ===== src/Registry.antt =====
-- bsp/bsp_sockets/IEventLoop.hpp: what the event loops promise to their clients. A descriptor is
-- registered with an interest in reading, in writing, or in both; adding an interest keeps the
-- other, and deleting the last one removes the descriptor.
use posix_bsp_perf.Prelude.{
  ℕ, ◌≡◌, Bool, true, false, not, ◌&&◌, ◌||◌, none, some, Option-cases, inl, inr, Map, lookup,
  insert, erase, lookup-insert, lookup-erase, arith, ◌==◌, if◌then◌else◌,
}

-- The bits EPOLLIN and EPOLLOUT of a mask, which have the values of POLLIN and POLLOUT.
pub record Mask : Type 0 where
  pub reads : Bool
  pub writes : Bool

abbrev pub no_mask : Mask
no_mask = record { reads = false; writes = false }

abbrev pub epollin : Mask
epollin = record { reads = true; writes = false }

abbrev pub epollout : Mask
epollout = record { reads = false; writes = true }

-- `a | b`
abbrev pub mask_or : Mask → Mask → Mask
mask_or a b = record { reads = a.reads || b.reads; writes = a.writes || b.writes }

-- `a & ~b`
abbrev pub mask_without : Mask → Mask → Mask
mask_without a b = record { reads = a.reads && not b.reads; writes = a.writes && not b.writes }

abbrev pub is_zero : Mask → Bool
is_zero a = not (a.reads || a.writes)

abbrev pub Registry : Type 0
Registry = Map Mask

-- The interest in a descriptor; nothing for one that is not registered.
unfoldable pub interest : Registry → ℕ → Mask
interest r fd = elim (lookup fd r) [ none ↦ no_mask | some m ↦ m ]

unfoldable pub add_io_event : ℕ → Mask → Registry → Registry
unfolding interest
add_io_event fd mask r = insert fd (mask_or (interest r fd) mask) r

-- `delIoEvent(fd, mask)`
unfoldable pub del_io_mask : ℕ → Mask → Registry → Registry
del_io_mask fd mask r = elim (lookup fd r) [
  | none ↦ r
  | some m ↦ if is_zero (mask_without m mask) then erase fd r else insert fd (mask_without m mask) r
]

-- `delIoEvent(fd)`
unfoldable pub del_io_event : ℕ → Registry → Registry
del_io_event fd r = erase fd r

module _ (fd other : ℕ) (r : Registry) where
  pub interest-add_io_event :
      (mask : Mask)
      → interest (add_io_event fd mask r) other
        ≡ (if fd == other then mask_or (interest r fd) mask else interest r other)
  unfolding interest add_io_event
  interest-add_io_event mask =
      ground (arith, lookup-insert fd other (mask_or (interest r fd) mask) r)

  pub interest-del_io_mask :
      (mask : Mask)
      → interest (del_io_mask fd mask r) other
        ≡ (if fd == other then mask_without (interest r fd) mask else interest r other)
  unfolding interest del_io_mask
  interest-del_io_mask mask = elim (Option-cases (lookup fd r)) [
    | inl absent ↦ rw (absent, del_io_mask, interest) (ground arith)
    | inr (m, found) ↦
        rw (found, del_io_mask, interest)
          (ground (arith, lookup-erase fd other r, lookup-insert fd other (mask_without m mask) r))
  ]

  pub interest-del_io_event :
      interest (del_io_event fd r) other ≡ (if fd == other then no_mask else interest r other)
  unfolding interest del_io_event
  interest-del_io_event = ground (arith, lookup-erase fd other r)
