-- ===== src/Accept/Takeover.antt =====
-- What TcpServer::doAccept and onMsgComing do with a burst of new connections.
use posix_bsp_perf.Prelude.{
  ℕ, ◌+◌, ◌%◌, ◌<◌, ◌≡◌, refl, sym, ap, subst, OnSome, ◌∙◌, true, false, some, List, [], ◌∷◌, ◌++◌,
  append_assoc, append-nil, map, arith, length, All,
}
use posix_bsp_perf.Registry.{Registry}
use posix_bsp_perf.Workers.{QueueMsg, new_conn, ThreadPool, get_next_thread}
use posix_bsp_perf.Connection.{int_mod, inc_connection, activate}
use posix_bsp_perf.Accept.{
  Accepted, would_block, accepted, Outcome, handed, closed, activated, TcpServer, take_over,
  hand_over, admit, accept_loop, do_accept, on_msg_coming,
}
use posix_bsp_perf.Accept.Limit.{Counted, take_over-Counted}

-- A burst of descriptors on which every call succeeds.
abbrev pub burst : List ℕ → List Accepted
burst [] = would_block ∷ []
burst (fd ∷ fds) = accepted fd true true true ∷ burst fds

-- The descriptors that were handed to another thread.
abbrev pub handed_fds : List Outcome → List ℕ
handed_fds [] = []
handed_fds (handed fd i ∷ os) = fd ∷ handed_fds os
handed_fds (closed fd ∷ os) = handed_fds os
handed_fds (activated fd ∷ os) = handed_fds os

handed_fds-append :
    (os : List Outcome) (fd i : ℕ) → handed_fds (os ++ handed fd i ∷ []) ≡ handed_fds os ++ fd ∷ []
handed_fds-append [] fd i = refl
handed_fds-append (handed g j ∷ os) fd i = ap (◌∷◌ g) (handed_fds-append os fd i)
handed_fds-append (closed g ∷ os) fd i = handed_fds-append os fd i
handed_fds-append (activated g ∷ os) fd i = handed_fds-append os fd i

admit_handed :
    (fd : ℕ) (s : TcpServer) (p : ThreadPool)
    → s.thread_pool ≡ some p
    → s.shared.curr_conns < s.max_connections
    → fd < s.conns_size
    → admit true true fd s ≡ some (hand_over p fd s)
unfolding admit
admit_handed fd s p e below fits = rw (e, admit) (ground arith)

accept_loop_admitted :
    (fd : ℕ) (fds : List ℕ) (s s' : TcpServer)
    → admit true true fd s ≡ some s'
    → accept_loop false (burst (fd ∷ fds)) s ≡ accept_loop false (burst fds) s'
unfolding accept_loop
accept_loop_admitted fd fds s s' e = rw (e, accept_loop) refl

hand_over_facts :
    (p : ThreadPool) (fd : ℕ) (s : TcpServer)
    → ((q : ThreadPool) × ((hand_over p fd s).thread_pool ≡ some q))
      × (handed_fds (hand_over p fd s).outcomes ≡ handed_fds s.outcomes ++ fd ∷ [])
      × ((hand_over p fd s).shared ≡ s.shared)
      × ((hand_over p fd s).max_connections ≡ s.max_connections)
      × ((hand_over p fd s).conns_size ≡ s.conns_size)
unfolding hand_over
hand_over_facts p fd s =
    ((_, refl), handed_fds-append s.outcomes fd (get_next_thread p).0, refl, refl, refl)

-- With a pool of threads the limit does not hold: as long as the counter is below the limit when
-- a burst of descriptors arrives, all of them are handed over, however many they are, because the
-- counter moves only when the other threads take them over. All calls succeed and the descriptors
-- have slots.
pub do_accept_overruns :
    (fds : List ℕ) (s : TcpServer) (p : ThreadPool)
    → s.thread_pool ≡ some p
    → s.shared.curr_conns < s.max_connections
    → All (λ fd. fd < s.conns_size) fds
    → (s' : TcpServer) × (do_accept (burst fds) s ≡ some s')
      × (handed_fds s'.outcomes ≡ handed_fds s.outcomes ++ fds)
      × (s'.shared ≡ s.shared)
unfolding do_accept
do_accept_overruns [] s p e below fit =
    (s, unfold accept_loop in refl, sym (append-nil (handed_fds s.outcomes)), refl)
do_accept_overruns (fd ∷ fds) s p e below fit =
    let s1 = hand_over p fd s in
    let ((q, threads), given, shared, limit, size) = hand_over_facts p fd s in
    let (s', ran, all_given, kept) =
      do_accept_overruns fds s1 q threads (omega (arith, ap (λ t. t.curr_conns) shared, limit))
        (subst (λ n. All (λ f. f < n) fds) (sym size) fit.1) in
    (
      s',
      accept_loop_admitted fd fds s s1 (admit_handed fd s p e below fit.0) ∙ ran,
      all_given ∙ ap (λ l. l ++ fds) given ∙ append_assoc (handed_fds s.outcomes) (fd ∷ []) fds,
      kept ∙ shared,
    )

take_over_runs :
    (fd : ℕ) (loop : Registry) (s : TcpServer)
    → (loop' : Registry) × (s' : TcpServer) × (take_over true fd loop s ≡ some (loop', s'))
unfolding take_over activate
take_over_runs fd loop s = (_, _, refl)

on_msg_coming_taken :
    (fd : ℕ) (msgs : List QueueMsg) (loop loop' : Registry) (tasks : List ℕ) (s s' : TcpServer)
    → take_over true fd loop s ≡ some (loop', s')
    → on_msg_coming (new_conn fd ∷ msgs) loop tasks s ≡ on_msg_coming msgs loop' tasks s'
unfolding on_msg_coming
on_msg_coming_taken fd msgs loop loop' tasks s s' e = rw (e, on_msg_coming) refl

-- A thread that receives new connections takes over every one of them, without a look at the limit:
-- the counter grows by their number, as an `int` does.
pub on_msg_coming_counts :
    (fds : List ℕ) (loop : Registry) (tasks : List ℕ) (s : TcpServer)
    → s.shared.curr_conns < int_mod
    → (loop' : Registry) × (s' : TcpServer) × (on_msg_coming (map new_conn fds) loop tasks s
        ≡ some (loop', tasks, s'))
      × (s'.shared.curr_conns ≡ (s.shared.curr_conns + length fds) % int_mod)
unfolding inc_connection
on_msg_coming_counts [] loop tasks s top = (loop, s, unfold on_msg_coming in refl, omega arith)
on_msg_coming_counts (fd ∷ fds) loop tasks s top =
    let (loop1, s1, took) = take_over_runs fd loop s in
    let c : Counted s s1 =
      subst (OnSome λ r. Counted s r.1) took (take_over-Counted true fd loop s) in
    let one : s1.shared.curr_conns ≡ (s.shared.curr_conns + 1) % int_mod =
      ap (λ t. t.curr_conns) c.shared in
    let (loop', s', ran, counted) = on_msg_coming_counts fds loop1 tasks s1 (omega arith) in
    (
      loop',
      s',
      on_msg_coming_taken fd (map new_conn fds) loop loop1 tasks s s1 took ∙ ran,
      omega arith,
    )
