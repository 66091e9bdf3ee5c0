-- ===== src/Connection.antt =====
-- bsp/bsp_sockets/impl/TcpConnection.cpp: a connection of the server, in one event loop.
-- The loop is the registry of IEventLoop.hpp. The server is shared: what the connection uses of it is
-- its command table and its connection counter, an `int` kept as its 32 bits. User callbacks reach
-- the connection through ISocketHelper only, so a callback is a function from a message to the
-- messages that it sends.
pub mod Framing
pub mod Reading
pub mod Writing
pub mod Closing
mod Tests
use posix_bsp_perf.Prelude.{
  ℕ, zero, suc, ◌+◌, ◌-◌, ◌%◌, ◌^◌, Bool, true, false, Option, none, some, List, [], ◌∷◌, ◌++◌, ltb,
  leb, if◌then◌else◌, length, drop,
}
use posix_bsp_perf.Message.{
  MsgHead, msg_head_length, sizeof_msg_head, read_head, packet, is_bad_length,
}
use posix_bsp_perf.Syscall.{Attempt}
use posix_bsp_perf.Buffers.{
  Buffer, IoBufferQueue, Ret, failed, returned, read_data, write_fd, is_empty, send_buffer,
}
use posix_bsp_perf.Dispatcher.{MsgDispatcher, exist}
use posix_bsp_perf.Registry.{Registry, epollin, epollout, add_io_event, del_io_mask, del_io_event}

-- What a connection uses of TcpServer; `curr_conns` holds the bits of an `int`.
pub record Server : Type 0 where
  pub dispatcher : MsgDispatcher
  pub curr_conns : ℕ

abbrev pub int_mod : ℕ
int_mod = 4294967296

unfoldable pub inc_connection : Server → Server
inc_connection s = record s { curr_conns = (s.curr_conns + 1) % int_mod }

unfoldable pub dec_connection : Server → Server
dec_connection s = record s { curr_conns = (s.curr_conns + int_mod - 1) % int_mod }

-- What the connection does that others see, in order.
pub data Action : Type 0 where
  established : Action
  delivered : ℕ → Buffer → Action
  closing : Action
  closed_fd : ℕ → Action

-- `fd` is `none` for -1, `server` is `none` once the weak pointer has expired.
pub record TcpConnection : Type 0 where
  pub fd : Option ℕ
  pub loop : Registry
  pub server : Option Server
  pub in_queue : IoBufferQueue
  pub out_queue : IoBufferQueue
  pub actions : List Action

abbrev pub log : TcpConnection → Action → TcpConnection
log c a = record c { actions = c.actions ++ a ∷ [] }

-- `if (!m_tcp_server.expired()) { callback; count }`
unfoldable pub notify_server : Action → (Server → Server) → TcpConnection → TcpConnection
notify_server a count c = elim c.server [
  | none ↦ c
  | some s ↦ record c { server = some (count s); actions = c.actions ++ a ∷ [] }
]

-- `none` is the exception of a failed `setsockopt`.
unfoldable pub activate : ℕ → Registry → Bool → TcpConnection → Option TcpConnection
unfolding inc_connection notify_server
activate conn_fd loop nodelay_ok c =
    if nodelay_ok
    then (let c' =
          notify_server established inc_connection (record c { fd = some conn_fd; loop = loop }) in
        some (record c' { loop = add_io_event conn_fd epollin c'.loop }))
    else none

-- The calls on the descriptor -1 that `cleanConnection` makes when it is closed already do nothing.
unfoldable pub close_fd : Option ℕ → TcpConnection → TcpConnection
close_fd none c = c
close_fd (some f) c = record c {
  loop = del_io_event f c.loop;
  actions = c.actions ++ closed_fd f ∷ [];
}

unfoldable pub clean_connection : TcpConnection → TcpConnection
unfolding dec_connection notify_server close_fd
clean_connection c =
    let c' = notify_server closing dec_connection c in
    record (close_fd c'.fd c') { fd = none; in_queue = []; out_queue = [] }

-- `sendData`: the write event is added when the queue was empty.
unfoldable pub send_data : ℕ → ℕ → Buffer → TcpConnection → TcpConnection
send_data padding cmd_id bytes c =
    let queued = record c { out_queue = send_buffer c.out_queue (packet padding cmd_id bytes) } in
    if is_empty c.out_queue
    then elim c.fd [
      | none ↦ queued
      | some f ↦ record queued { loop = add_io_event f epollout c.loop }
    ]
    else queued

-- What a round of the loop in `handleRead` finds in the front buffer.
pub data Verdict : Type 0 where
  fault bad_head half no_server unknown_cmd : Verdict
  deliver : ℕ → Buffer → Verdict

-- `fault` is a read past the end of the buffer.
unfoldable pub inspect : Option Server → Buffer → Verdict
unfolding read_head is_bad_length
inspect server buffer = elim (read_head buffer) [
  | none ↦ fault
  | some head ↦
      if is_bad_length head.length
      then bad_head
      else if ltb (length buffer) (msg_head_length + head.length)
      then half
      else elim server [
        | none ↦ no_server
        | some s ↦
            if exist s.dispatcher head.cmd_id
            then deliver head.cmd_id (drop sizeof_msg_head buffer)
            else unknown_cmd
      ]
]

-- A message that a user callback sends: the padding of its head, its command id and its bytes.
pub record Reply : Type 0 where
  pub padding : ℕ
  pub cmd_id : ℕ
  pub bytes : Buffer

unfoldable pub send_all : List Reply → TcpConnection → TcpConnection
send_all [] c = c
send_all (r ∷ rs) c = send_all rs (send_data r.padding r.cmd_id r.bytes c)

module _ (callback : ℕ → Buffer → List Reply) where
  -- The callback runs, then its buffer, still in front, is popped.
  unfoldable pub run_callback : ℕ → Buffer → IoBufferQueue → TcpConnection → TcpConnection
  run_callback cmd_id bytes rest c =
      record (send_all (callback cmd_id bytes) (log c (delivered cmd_id bytes))) { in_queue = rest }

  -- The `while` loop of `handleRead`, over the buffers that are queued.
  unfoldable pub drain : IoBufferQueue → TcpConnection → Option TcpConnection
  drain [] c = some c
  drain (b ∷ rest) c = elim (inspect c.server b) [
    | fault ↦ none
    | half ↦ some c
    | deliver cmd_id bytes ↦ drain rest (run_callback cmd_id bytes rest c)
    | other ↦ some (clean_connection c)
  ]

  -- `none`: the read is still interrupted, or a buffer is read past its end.
  unfoldable pub handle_read :
      Option ℕ → List (Attempt Buffer) → TcpConnection → Option TcpConnection
  handle_read announced reads c = elim (read_data c.in_queue announced reads) [
    | none ↦ none
    | some (failed, q) ↦ some (clean_connection c)
    | some (returned zero, q) ↦ some (clean_connection c)
    | some (returned (suc n), q) ↦ drain q (record c { in_queue = q })
  ]

-- The loop of `handleWrite`; each round takes the answers to its own writes.
pub data WriteEnd : Type 0 where
  waiting broken drained stopped : IoBufferQueue → WriteEnd

unfoldable pub write_loop : IoBufferQueue → List (List (Attempt ℕ)) → WriteEnd
write_loop [] answers = drained []
write_loop (b ∷ q) [] = waiting (b ∷ q)
write_loop (b ∷ q) (writes ∷ answers) = elim (write_fd (b ∷ q) writes) [
  | none ↦ waiting (b ∷ q)
  | some (failed, q') ↦ broken q'
  | some (returned zero, q') ↦ stopped q'
  | some (returned (suc n), q') ↦ write_loop q answers
]

-- `delIoEvent(fd, EPOLLOUT)` if the queue is empty
unfoldable pub end_write : IoBufferQueue → TcpConnection → TcpConnection
end_write [] c = elim c.fd [
  | none ↦ record c { out_queue = [] }
  | some f ↦ record c { out_queue = []; loop = del_io_mask f epollout c.loop }
]
end_write (b ∷ q) c = record c { out_queue = b ∷ q }

-- What follows the loop. `none` while a write is interrupted.
unfoldable pub finish_write : WriteEnd → TcpConnection → Option TcpConnection
unfolding end_write clean_connection
finish_write (waiting q) c = none
finish_write (broken q) c = some (clean_connection (record c { out_queue = q }))
finish_write (drained q) c = some (end_write q c)
finish_write (stopped q) c = some (end_write q c)

unfoldable pub handle_write : List (List (Attempt ℕ)) → TcpConnection → Option TcpConnection
unfolding write_loop
handle_write answers c = finish_write (write_loop c.out_queue answers) c
