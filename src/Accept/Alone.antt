-- ===== src/Accept/Alone.antt =====
-- A burst of new connections in a server without a pool of threads.
use posix_bsp_perf.Prelude.{
  ℕ, ◌+◌, ◌%◌, ◌≤◌, ◌<◌, ◌≡◌, refl, sym, ap, subst, OnSome, ◌∙◌, Bool, true, false, none, some,
  Bool-cases, inl, inr, List, [], ◌∷◌, leb, min, arith, length, All,
}
use posix_bsp_perf.Registry.{Registry}
use posix_bsp_perf.Connection.{int_mod, inc_connection, activate}
use posix_bsp_perf.Accept.{
  closed, activated, TcpServer, note, take_over, activate_here, admit, accept_loop, do_accept,
}
use posix_bsp_perf.Accept.Limit.{Within, Counted, take_over-Counted}
use posix_bsp_perf.Accept.Takeover.{burst}

take_over_runs :
    (fd : ℕ) (s : TcpServer) → (r : Registry × TcpServer) × (take_over true fd s.loop s ≡ some r)
unfolding take_over activate
take_over_runs fd s = (_, refl)

activate_here_taken :
    (nodelay_ok : Bool) (fd : ℕ) (s s1 : TcpServer) (loop : Registry)
    → take_over nodelay_ok fd s.loop s ≡ some (loop, s1)
    → activate_here nodelay_ok fd s ≡ some (note (activated fd) (record s1 { loop = loop }))
unfolding activate_here
activate_here_taken nodelay_ok fd s s1 loop took = rw (took, activate_here) refl

activate_here_runs :
    (fd : ℕ) (s : TcpServer) → (s' : TcpServer) × (activate_here true fd s ≡ some s') × Counted s s'
activate_here_runs fd s =
    let ((loop, s1), took) = take_over_runs fd s in
    let c : Counted s s1 =
      subst (OnSome λ r. Counted s r.1) took (take_over-Counted true fd s.loop s) in
    (
      note (activated fd) (record s1 { loop = loop }),
      activate_here_taken true fd s s1 loop took,
      record { shared = c.shared; limit = c.limit; threads = c.threads; slots = c.slots },
    )

admit_below :
    (fd : ℕ) (s : TcpServer)
    → s.thread_pool ≡ none
    → s.shared.curr_conns < s.max_connections
    → fd < s.conns_size
    → admit true true fd s ≡ activate_here true fd s
unfolding admit
admit_below fd s e below fits = rw (e, admit) (ground arith)

admit_full :
    (fd : ℕ) (s : TcpServer)
    → s.max_connections ≤ s.shared.curr_conns
    → admit true true fd s ≡ some (note (closed fd) s)
unfolding admit
admit_full fd s full = ground arith

accept_loop_admitted :
    (fd : ℕ) (fds : List ℕ) (s s' : TcpServer)
    → admit true true fd s ≡ some s'
    → accept_loop false (burst (fd ∷ fds)) s ≡ accept_loop false (burst fds) s'
unfolding accept_loop
accept_loop_admitted fd fds s s' e = rw (e, accept_loop) refl

-- A server without a pool of threads takes in a burst of descriptors, on which every call succeeds
-- and which have slots, up to its limit and returns: the counter is then its sum with their number
-- or the limit, whichever is less.
pub do_accept_alone :
    (fds : List ℕ) (s : TcpServer)
    → Within s
    → All (λ fd. fd < s.conns_size) fds
    → (s' : TcpServer) × (do_accept (burst fds) s ≡ some s')
      × (s'.shared.curr_conns ≡ min s.max_connections (s.shared.curr_conns + length fds))
unfolding do_accept inc_connection
do_accept_alone [] s w fit = (s, unfold accept_loop in refl, omega (arith, w.limited))
do_accept_alone (fd ∷ fds) s w fit = elim (Bool-cases (leb s.max_connections s.shared.curr_conns)) [
  | inl full ↦
      let s1 = note (closed fd) s in
      let at_limit : s.max_connections ≤ s.shared.curr_conns = ground arith in
      let (s', ran, counted) =
        do_accept_alone fds s1 (record { limited = w.limited; is_int = w.is_int; alone = w.alone })
          fit.1 in
      (
        s',
        accept_loop_admitted fd fds s s1 (admit_full fd s at_limit) ∙ ran,
        counted ∙ omega (arith, w.limited),
      )
  | inr free ↦
      let below : s.shared.curr_conns < s.max_connections = ground arith in
      let (s1, went, c) = activate_here_runs fd s in
      let one : s1.shared.curr_conns ≡ (s.shared.curr_conns + 1) % int_mod =
        ap (λ t. t.curr_conns) c.shared in
      let next : s1.shared.curr_conns ≡ s.shared.curr_conns + 1 = omega (arith, w.is_int) in
      let (s', ran, counted) =
        do_accept_alone fds s1
          (record {
            limited = omega (arith, c.limit);
            is_int = omega (arith, c.limit, w.is_int);
            alone = c.threads ∙ w.alone;
          })
          (subst (λ n. All (λ f. f < n) fds) (sym c.slots) fit.1) in
      (
        s',
        accept_loop_admitted fd fds s s1 (admit_below fd s w.alone below fit.0 ∙ went) ∙ ran,
        counted ∙ omega (arith, c.limit, next),
      )
]
