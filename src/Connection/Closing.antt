-- ===== src/Connection/Closing.antt =====
-- TcpConnection::activate and cleanConnection: the life of a connection.
use mathlib.Core.Option.{some-injective}
use posix_bsp_perf.Prelude.{
  subst, ℕ, ◌+◌, ◌-◌, ◌%◌, ◌<◌, ◌≡◌, refl, ap, true, false, none, some, [], ◌∷◌, ◌++◌, arith, ◌==◌,
  append_assoc, ◌∙◌,
}
use posix_bsp_perf.Registry.{Registry, no_mask, interest, del_io_event, interest-del_io_event}
use posix_bsp_perf.Connection.{
  TcpConnection, Server, int_mod, closing, closed_fd, inc_connection, dec_connection, notify_server,
  activate, close_fd, clean_connection,
}

-- What a closed connection has become of an open one, with its server and its descriptor.
pub record Closed (c : TcpConnection) (s : Server) (f : ℕ) (c' : TcpConnection) : Type 0 where
  pub fd : c'.fd ≡ none
  pub emptied : (c'.in_queue ≡ []) × (c'.out_queue ≡ [])
  pub counted : c'.server ≡ some (record s { curr_conns = s.curr_conns - 1 })
  pub reported : c'.actions ≡ c.actions ++ closing ∷ closed_fd f ∷ []
  pub unregistered : interest c'.loop f ≡ no_mask
  pub others : (g : ℕ) → (f == g) ≡ false → interest c'.loop g ≡ interest c.loop g

-- A connection that is open is closed in full.
clean_connection_open :
    (c : TcpConnection) (s : Server) (f : ℕ)
    → c.fd ≡ some f
    → c.server ≡ some s
    → clean_connection c ≡ record c {
      fd = none;
      loop = del_io_event f c.loop;
      server = some (dec_connection s);
      in_queue = [];
      out_queue = [];
      actions = c.actions ++ closing ∷ closed_fd f ∷ [];
    }
unfolding clean_connection
clean_connection_open c s f e k =
    rw (k, clean_connection, notify_server)
      (rw (e, close_fd)
        (ap
          (λ l. record c {
            fd = none;
            loop = del_io_event f c.loop;
            server = some (dec_connection s);
            in_queue = [];
            out_queue = [];
            actions = l;
          })
          (append_assoc c.actions (closing ∷ []) (closed_fd f ∷ []))))

-- Cleaning an open connection of a server that counts it closes the descriptor, takes it out of the
-- loop and leaves the other descriptors there, drops what is queued both ways and counts one
-- connection less.
pub clean_connection-Closed :
    (c : TcpConnection) (s : Server) (f : ℕ)
    → c.fd ≡ some f
    → c.server ≡ some s
    → 0 < s.curr_conns
    → s.curr_conns < int_mod
    → Closed c s f (clean_connection c)
unfolding clean_connection
clean_connection-Closed c s f e k pos top = record {
  fd = refl;
  emptied = (refl, refl);
  counted = ground arith;
  reported = ap (λ d. d.actions) (clean_connection_open c s f e k);
  unregistered = ground (arith, interest-del_io_event f f c.loop);
  others = λ g ne. ground (arith, interest-del_io_event f g c.loop);
}

activate_facts :
    (c c' : TcpConnection) (s : Server) (f : ℕ) (loop : Registry)
    → c.server ≡ some s
    → activate f loop true c ≡ some c'
    → (c'.fd ≡ some f) × (c'.server ≡ some (inc_connection s))
unfolding activate
activate_facts c c' s f loop k e =
    subst (λ d. (d.fd ≡ some f) × (d.server ≡ some (inc_connection s))) (some-injective _ _ e)
      (rw (k, activate, notify_server) (refl, refl))

dec_connection-inc_connection :
    (s : Server) → s.curr_conns < int_mod → dec_connection (inc_connection s) ≡ s
unfolding inc_connection dec_connection
dec_connection-inc_connection s top =
    let back : ((s.curr_conns + 1) % int_mod + int_mod - 1) % int_mod ≡ s.curr_conns =
      omega arith in
    ap (λ n. record s { curr_conns = n }) back

-- A connection that is activated and cleaned leaves the server's count as it was, if that is a
-- 32-bit number, and leaves its descriptor unregistered.
pub clean_connection-activate :
    (c c' : TcpConnection) (s : Server) (f : ℕ) (loop : Registry)
    → c.server ≡ some s
    → s.curr_conns < int_mod
    → activate f loop true c ≡ some c'
    → ((clean_connection c').server ≡ some s) × (interest (clean_connection c').loop f ≡ no_mask)
unfolding clean_connection activate
clean_connection-activate c c' s f loop k top e =
    let (open_fd, counted) = activate_facts c c' s f loop k e in
    let closed = clean_connection_open c' (inc_connection s) f open_fd counted in
    (
      ap (λ d. d.server) closed ∙ ap some (dec_connection-inc_connection s top),
      ap (λ d. interest d.loop f) closed ∙ ground (arith, interest-del_io_event f f c'.loop),
    )
