-- ===== src/Connection/Reading.antt =====
-- TcpConnection::handleRead: messages that arrive whole, and one that arrives in pieces.
use posix_bsp_perf.Prelude.{
  ℕ, zero, suc, ◌+◌, ◌^◌, ◌≤◌, ◌<◌, ◌≡◌, refl, sym, ap, ◌∙◌, true, Option, none, some, List, [],
  ◌∷◌, ◌++◌, arith, length, length-append, map, append_assoc, append-nil, All,
}
use posix_bsp_perf.Message.{msg_length_limit, packet}
use posix_bsp_perf.Syscall.{Attempt, done, interruptions}
use posix_bsp_perf.Buffers.{Buffer, IoBufferQueue, returned, max_buffer_num, read_data}
use posix_bsp_perf.Buffers.Effects.{read_data_appends}
use posix_bsp_perf.Dispatcher.{exist}
use posix_bsp_perf.Connection.{
  TcpConnection, Server, Reply, Action, half, deliver, delivered, inspect, send_data, send_all,
  run_callback, drain, handle_read, log,
}
use posix_bsp_perf.Message.Codec.{length-packet}
use posix_bsp_perf.Connection.Framing.{inspect-packet}

send_data_actions :
    (padding cmd_id : ℕ) (bytes : Buffer) (c : TcpConnection)
    → ((send_data padding cmd_id bytes c).actions ≡ c.actions)
      × ((send_data padding cmd_id bytes c).server ≡ c.server)
unfolding send_data
send_data_actions padding cmd_id bytes c = ground arith

send_all_actions :
    (rs : List Reply) (c : TcpConnection)
    → ((send_all rs c).actions ≡ c.actions) × ((send_all rs c).server ≡ c.server)
unfolding send_all
send_all_actions [] c = (refl, refl)
send_all_actions (r ∷ rs) c =
    let ih = send_all_actions rs (send_data r.padding r.cmd_id r.bytes c) in
    let one = send_data_actions r.padding r.cmd_id r.bytes c in (ih.0 ∙ one.0, ih.1 ∙ one.1)

-- A message as a client sends it.
pub record Message : Type 0 where
  pub padding : ℕ
  pub cmd_id : ℕ
  pub bytes : Buffer

abbrev pub wire : Message → Buffer
wire m = packet m.padding m.cmd_id m.bytes

-- The message is within the size limits and its command is registered.
abbrev pub Served : Server → Message → Type 0
Served s m =
    (m.cmd_id < 2 ^ 64) × (length m.bytes ≤ msg_length_limit) × (exist s.dispatcher m.cmd_id ≡ true)

abbrev pub deliveries : List Message → List Action
deliveries = map λ m. delivered m.cmd_id m.bytes

whole_message :
    (s : Server) (m : Message) → Served s m → inspect (some s) (wire m) ≡ deliver m.cmd_id m.bytes
whole_message s m (fits, short, known) =
    ap (inspect (some s)) (sym (append-nil (wire m)))
    ∙ inspect-packet s m.padding m.cmd_id m.bytes fits short [] known
    ∙ ap (deliver m.cmd_id) (append-nil m.bytes)

module _ (callback : ℕ → Buffer → List Reply) where
  run_callback_actions :
      (cmd_id : ℕ) (bytes : Buffer) (rest : IoBufferQueue) (c : TcpConnection)
      → ((run_callback callback cmd_id bytes rest c).actions
          ≡ c.actions ++ delivered cmd_id bytes ∷ [])
        × ((run_callback callback cmd_id bytes rest c).server ≡ c.server)
        × ((run_callback callback cmd_id bytes rest c).in_queue ≡ rest)
  unfolding run_callback
  run_callback_actions cmd_id bytes rest c =
      let sent = send_all_actions (callback cmd_id bytes) (log c (delivered cmd_id bytes)) in
      (sent.0, sent.1, refl)

  drain_deliver :
      (b : Buffer) (rest : IoBufferQueue) (cmd_id : ℕ) (bytes : Buffer) (c : TcpConnection)
      → inspect c.server b ≡ deliver cmd_id bytes
      → drain callback (b ∷ rest) c
        ≡ drain callback rest (run_callback callback cmd_id bytes rest c)
  unfolding drain
  drain_deliver b rest cmd_id bytes c e = rw (e, drain) refl

  -- Messages that stand in the queue whole, one to a buffer, all within the size limits and of
  -- registered commands, are all delivered, in order and with exactly their data, whatever their
  -- callbacks send; the queue is empty then, and the server's state is unchanged.
  pub drain_delivers :
      (ms : List Message) (s : Server) (c : TcpConnection)
      → All (Served s) ms
      → c.server ≡ some s
      → c.in_queue ≡ map wire ms
      → (c' : TcpConnection) × (drain callback (map wire ms) c ≡ some c')
        × (c'.actions ≡ c.actions ++ deliveries ms)
        × (c'.in_queue ≡ [])
        × (c'.server ≡ some s)
  drain_delivers [] s c a e q = (c, unfold drain in refl, sym (append-nil c.actions), q, e)
  drain_delivers (m ∷ ms) s c a e q =
      let rest = map wire ms in
      let next = run_callback callback m.cmd_id m.bytes rest c in
      let facts = run_callback_actions m.cmd_id m.bytes rest c in
      let verdict : inspect c.server (wire m) ≡ deliver m.cmd_id m.bytes =
        ap (λ o. inspect o (wire m)) e ∙ whole_message s m a.0 in
      let (c', ran, log', emptied, kept) = drain_delivers ms s next a.1 (facts.1 ∙ e) facts.2 in
      (
        c',
        drain_deliver (wire m) rest m.cmd_id m.bytes c verdict ∙ ran,
        log'
            ∙ ap (λ l. l ++ deliveries ms) facts.0
            ∙ append_assoc c.actions (delivered m.cmd_id m.bytes ∷ []) (deliveries ms),
        emptied,
        kept,
      )

  handle_read_got :
      (announced : Option ℕ) (reads : List (Attempt Buffer)) (n : ℕ) (q : IoBufferQueue)
      (c : TcpConnection)
      → read_data c.in_queue announced reads ≡ some (returned n, q)
      → 0 < n
      → handle_read callback announced reads c ≡ drain callback q (record c { in_queue = q })
  unfolding handle_read
  handle_read_got announced reads zero q c e h = absurd (omega arith)
  handle_read_got announced reads (suc n) q c e h = rw (e, handle_read) refl

  -- Reading one whole message of a registered command, within the size limits, after any number of
  -- interruptions, into an empty queue delivers it and empties the queue.
  pub handle_read_delivers :
      (m : Message) (s : Server) (c : TcpConnection) (k : ℕ)
      → Served s m
      → c.server ≡ some s
      → c.in_queue ≡ []
      → (c' : TcpConnection) × (handle_read callback
            (some (length (wire m)))
            (interruptions k (done (wire m) ∷ []))
            c
          ≡ some c')
        × (c'.actions ≡ c.actions ++ delivered m.cmd_id m.bytes ∷ [])
        × (c'.in_queue ≡ [])
  handle_read_delivers m s c k a e q =
      let some_bytes : 0 < length (wire m) =
        omega (arith, length-packet m.padding m.cmd_id m.bytes) in
      let queued = c.in_queue ++ wire m ∷ [] in
      let read =
        read_data_appends c.in_queue k (wire m) [] (omega (arith, ap length q)) some_bytes in
      let one : queued ≡ map wire (m ∷ []) = ap (λ l. l ++ wire m ∷ []) q in
      let (c', ran, log', emptied, kept) =
        drain_delivers (m ∷ []) s (record c { in_queue = queued }) (a, tt) e one in
      (
        c',
        handle_read_got _ _ (length (wire m)) queued c read some_bytes
            ∙ ap (λ l. drain callback l (record c { in_queue = queued })) one
            ∙ ran,
        log',
        emptied,
      )

  drain_half :
      (front : Buffer) (rest : IoBufferQueue) (c : TcpConnection)
      → inspect c.server front ≡ half
      → drain callback (front ∷ rest) c ≡ some c
  unfolding drain
  drain_half front rest c e = rw (e, drain) refl

  -- A half message in front of the queue holds up every later read: what one more read brings, be
  -- it the missing half or whole messages, is queued behind it, and nothing is delivered. Room in
  -- the queue and a read that brings all announced bytes are given.
  pub handle_read_half :
      (front bytes : Buffer) (rest : IoBufferQueue) (c : TcpConnection)
      → c.in_queue ≡ front ∷ rest
      → inspect c.server front ≡ half
      → length (front ∷ rest) < max_buffer_num
      → 0 < length bytes
      → handle_read callback (some (length bytes)) (done bytes ∷ []) c
        ≡ some (record c { in_queue = front ∷ (rest ++ bytes ∷ []) })
  handle_read_half front bytes rest c q stuck room some_bytes =
      let queued = c.in_queue ++ bytes ∷ [] in
      let behind : queued ≡ front ∷ (rest ++ bytes ∷ []) = ap (λ l. l ++ bytes ∷ []) q in
      let read = read_data_appends c.in_queue 0 bytes [] (omega (arith, ap length q)) some_bytes in
      handle_read_got _ _ (length bytes) queued c read some_bytes
      ∙ ap (λ l. drain callback l (record c { in_queue = l })) behind
      ∙ drain_half front (rest ++ bytes ∷ []) _ stuck

  -- The reads of a connection, one after the other; each brings all the bytes that it announced.
  unfoldable pub read_all : List Buffer → TcpConnection → Option TcpConnection
  read_all [] c = some c
  read_all (bytes ∷ later) c =
      elim (handle_read callback (some (length bytes)) (done bytes ∷ []) c) [
        | none ↦ none
        | some c' ↦ read_all later c'
      ]

  -- So a message whose first read brought only a part of it is never delivered, nor is any message
  -- after it: as long as the queue has room, further reads only pile up behind it.
  pub read_all_half :
      (later : List Buffer) (front : Buffer) (rest : IoBufferQueue) (c : TcpConnection)
      → c.in_queue ≡ front ∷ rest
      → inspect c.server front ≡ half
      → length (front ∷ rest) + length later ≤ max_buffer_num
      → All (λ bytes. 0 < length bytes) later
      → read_all later c ≡ some (record c { in_queue = front ∷ (rest ++ later) })
  unfolding read_all
  read_all_half [] front rest c q stuck room a =
      ap (λ l. some (record c { in_queue = l })) (q ∙ ap (◌∷◌ front) (sym (append-nil rest)))
  read_all_half (bytes ∷ later) front rest c q stuck room a =
      let behind = rest ++ bytes ∷ [] in
      let one = handle_read_half front bytes rest c q stuck (omega arith) a.0 in
      rw (one, read_all)
        (read_all_half later front behind (record c { in_queue = front ∷ behind }) refl stuck
            (omega (arith, length-append rest (bytes ∷ []))) a.1
          ∙ ap (λ l. some (record c { in_queue = front ∷ l }))
              (append_assoc rest (bytes ∷ []) later))
