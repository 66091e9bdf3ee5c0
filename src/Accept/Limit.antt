-- ===== src/Accept/Limit.antt =====
-- The limit on connections in TcpServer::doAccept.
use posix_bsp_perf.Prelude.{
  ℕ, ◌^◌, ◌≤◌, ◌<◌, ◌≡◌, refl, ap, subst, OnSome, ◌∙◌, Bool, true, false, not, none, some,
  Option-cases, inl, inr, List, [], ◌∷◌, leb, if◌then◌else◌, if_elim, arith,
}
use posix_bsp_perf.Registry.{Registry}
use posix_bsp_perf.Connection.{Server, TcpConnection, inc_connection, notify_server, activate}
use posix_bsp_perf.Accept.{
  Accepted, interrupted, emfile, would_block, broken, accepted, closed, TcpServer, note, pooled,
  take_over, activate_here, admit, accept_loop, do_accept,
}

activate_server :
    (fd : ℕ) (loop : Registry) (nodelay_ok : Bool) (c : TcpConnection) (s : Server)
    → c.server ≡ some s
    → OnSome (λ c'. c'.server ≡ some (inc_connection s)) (activate fd loop nodelay_ok c)
unfolding activate
activate_server fd loop true c s k = rw (k, activate, notify_server) refl
activate_server fd loop false c s k = tt

pooled_server :
    (s : TcpServer) (loop : Registry) (fd : ℕ) → (pooled s loop fd).server ≡ some s.shared
unfolding pooled
pooled_server s loop fd = ground (arith)

-- What taking over a descriptor changes of the server, apart from its pool of connections.
pub record Counted (s s' : TcpServer) : Type 0 where
  pub shared : s'.shared ≡ inc_connection s.shared
  pub limit : s'.max_connections ≡ s.max_connections
  pub threads : s'.thread_pool ≡ s.thread_pool
  pub slots : s'.conns_size ≡ s.conns_size

pub take_over-Counted :
    (nodelay_ok : Bool) (fd : ℕ) (loop : Registry) (s : TcpServer)
    → OnSome (λ r. Counted s r.1) (take_over nodelay_ok fd loop s)
unfolding take_over
take_over-Counted nodelay_ok fd loop s =
    let c = pooled s loop fd in
    let counted = activate_server fd loop nodelay_ok c s.shared (pooled_server s loop fd) in
    elim (Option-cases (activate fd loop nodelay_ok c)) [
      | inl thrown ↦ rw (thrown, take_over) tt
      | inr (c', went) ↦
          let known : c'.server ≡ some (inc_connection s.shared) =
            subst (OnSome λ d. d.server ≡ some (inc_connection s.shared)) went counted in
          rw (went, take_over)
            (record {
              shared = ap (λ o. elim o [ none ↦ s.shared | some t ↦ t ]) known;
              limit = refl;
              threads = refl;
              slots = refl;
            })
    ]

-- The counter is within the limit, which is an `int` that is not negative, and there is no pool of
-- threads.
pub record Within (s : TcpServer) : Type 0 where
  pub limited : s.shared.curr_conns ≤ s.max_connections
  pub is_int : s.max_connections < 2 ^ 31
  pub alone : s.thread_pool ≡ none

step-Within :
    (s s' : TcpServer)
    → Within s
    → s.shared.curr_conns < s.max_connections
    → Counted s s'
    → Within s'
unfolding inc_connection
step-Within s s' w below c = record {
  limited = omega (arith, ap (λ t. t.curr_conns) c.shared, c.limit, w.is_int, w.limited);
  is_int = omega (arith, c.limit, w.is_int);
  alone = c.threads ∙ w.alone;
}

activate_here-Within :
    (nodelay_ok : Bool) (fd : ℕ) (s : TcpServer)
    → Within s
    → s.shared.curr_conns < s.max_connections
    → OnSome Within (activate_here nodelay_ok fd s)
unfolding activate_here
activate_here-Within nodelay_ok fd s w below =
    elim (Option-cases (take_over nodelay_ok fd s.loop s)) [
      | inl thrown ↦ rw (thrown, activate_here) tt
      | inr ((loop, s'), went) ↦
          let c : Counted s s' =
            subst (OnSome λ r. Counted s r.1) went (take_over-Counted nodelay_ok fd s.loop s) in
          let fine = step-Within s s' w below c in
          rw (went, activate_here)
            (record { limited = fine.limited; is_int = fine.is_int; alone = fine.alone })
    ]

admit-Within :
    (keepalive_ok nodelay_ok : Bool) (fd : ℕ) (s : TcpServer)
    → Within s
    → OnSome Within (admit keepalive_ok nodelay_ok fd s)
unfolding admit
admit-Within keepalive_ok nodelay_ok fd s w =
    if_elim (OnSome Within) (leb s.max_connections s.shared.curr_conns)
      (λ e. record { limited = w.limited; is_int = w.is_int; alone = w.alone })
      λ e.
        let below : s.shared.curr_conns < s.max_connections = ground arith in
        if_elim (OnSome Within) (leb s.conns_size fd) (λ f. tt)
          λ f.
            if_elim (OnSome Within) (if s.keep_alive then not keepalive_ok else false) (λ g. tt)
              λ g. rw (w.alone, admit) (activate_here-Within nodelay_ok fd s w below)

accept_loop-Within :
    (conn_full : Bool) (answers : List Accepted) (s : TcpServer)
    → Within s
    → OnSome Within (accept_loop conn_full answers s)
unfolding accept_loop
accept_loop-Within conn_full [] s w = tt
accept_loop-Within conn_full (interrupted ∷ answers) s w = accept_loop-Within conn_full answers s w
accept_loop-Within conn_full (emfile ∷ answers) s w =
    accept_loop-Within true answers (record s { reserve_open = false })
      (record { limited = w.limited; is_int = w.is_int; alone = w.alone })
accept_loop-Within conn_full (would_block ∷ answers) s w = w
accept_loop-Within conn_full (broken ∷ answers) s w = tt
accept_loop-Within true (accepted fd keepalive_ok nodelay_ok open_ok ∷ answers) s w =
    if_elim (OnSome Within) open_ok
      (λ e.
        accept_loop-Within false answers (note (closed fd) (record s { reserve_open = true }))
          (record { limited = w.limited; is_int = w.is_int; alone = w.alone }))
      (λ e. tt)
accept_loop-Within false (accepted fd keepalive_ok nodelay_ok open_ok ∷ answers) s w =
    elim (Option-cases (admit keepalive_ok nodelay_ok fd s)) [
      | inl thrown ↦ rw (thrown, accept_loop) tt
      | inr (s', went) ↦
          rw (went, accept_loop)
            (accept_loop-Within false answers s'
              (subst (OnSome Within) went (admit-Within keepalive_ok nodelay_ok fd s w)))
    ]

-- Without a pool of threads, accepting keeps the number of connections within the limit, on all
-- answers on which it returns.
pub do_accept-Within :
    (answers : List Accepted) (s s' : TcpServer)
    → Within s
    → do_accept answers s ≡ some s'
    → Within s'
unfolding do_accept
do_accept-Within answers s s' w r = subst (OnSome Within) r (accept_loop-Within false answers s w)
