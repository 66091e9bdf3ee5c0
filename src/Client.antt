-- ===== src/Client.antt =====
-- bsp/bsp_sockets/impl/TcpClient.cpp: a client in one event loop, which connects again when its
-- connection is closed. The callbacks on connecting and closing, and those of the messages, reach
-- the client through sendData only, so each is the list of the messages that it sends; one that is
-- not set sends nothing.
pub mod Keeps
pub mod Writing
pub mod Reading
mod Tests
use posix_bsp_perf.Prelude.{
  ℕ, zero, suc, Bool, true, false, Option, none, some, List, [], ◌∷◌, ◌++◌, ltb, ◌==◌,
  if◌then◌else◌, not, ◌&&◌, length, drop,
}
use posix_bsp_perf.Message.{read_head, packet, sizeof_msg_head}
use posix_bsp_perf.Syscall.{Attempt, eintr, eagain, error, done, retry}
use posix_bsp_perf.Buffers.{Buffer, IoBufferQueue, is_empty, is_full, send_buffer}
use posix_bsp_perf.Dispatcher.{MsgDispatcher, exist}
use posix_bsp_perf.Registry.{Registry, epollin, epollout, add_io_event, del_io_mask, del_io_event}
use posix_bsp_perf.Connection.{Reply}

-- The answers to `socket` and `connect` of one attempt: `refused` is any failure but EINPROGRESS.
pub data Connect : Type 0 where
  no_socket refused : Connect
  connected_at once_ready_at : ℕ → Connect

-- What the client does that others see, in order. `retry_later` is the timer of 2 seconds.
pub data ClientAction : Type 0 where
  on_connect on_close retry_later : ClientAction
  message : ℕ → Buffer → ClientAction
  closed_socket : ℕ → ClientAction

pub record TcpClient : Type 0 where
  pub sockfd : Option ℕ
  pub net_connected : Bool
  pub running : Bool
  pub loop : Registry
  pub dispatcher : MsgDispatcher
  pub out_queue : IoBufferQueue
  pub actions : List ClientAction

abbrev pub report : ClientAction → TcpClient → TcpClient
report a c = record c { actions = c.actions ++ a ∷ [] }

-- The event is added to the client's socket, if it has one.
abbrev pub listen_to_write : TcpClient → TcpClient
listen_to_write c = elim c.sockfd [
  | none ↦ c
  | some f ↦ record c { loop = add_io_event f epollout c.loop }
]

-- `true` stands for the result 0, `false` for -1.
unfoldable pub send_data : Reply → TcpClient → Bool × TcpClient
send_data r c =
    if not c.net_connected
    then (false, c)
    else if is_full c.out_queue
    then (false, c)
    else (let queued = record c {
      out_queue = send_buffer c.out_queue (packet r.padding r.cmd_id r.bytes);
    } in
        if is_empty c.out_queue then (true, listen_to_write queued) else (true, queued))

unfoldable pub send_all : List Reply → TcpClient → TcpClient
unfolding send_data
send_all [] c = c
send_all (r ∷ rs) c = send_all rs (send_data r c).1

-- The `if (m_sockfd != -1)` block of `stop` and `cleanConnection`.
unfoldable pub drop_socket : TcpClient → TcpClient
drop_socket c = elim c.sockfd [
  | none ↦ c
  | some f ↦ record c {
    sockfd = none;
    loop = del_io_event f c.loop;
    actions = c.actions ++ closed_socket f ∷ [];
  }
]

unfoldable pub stop : TcpClient → TcpClient
unfolding drop_socket
stop c = if not c.running then c else record (drop_socket c) { running = false }

-- Closing the old socket in `doConnect` leaves it in the loop.
unfoldable pub close_old : TcpClient → TcpClient
close_old c = elim c.sockfd [
  | none ↦ c
  | some f ↦ record c { sockfd = none; actions = c.actions ++ closed_socket f ∷ [] }
]

module _ (greeting : List Reply) where
  -- What a connection on socket `f` begins with, in `doConnect` and `connectEventCallback`.
  unfoldable pub connected : ℕ → TcpClient → TcpClient
  unfolding send_all
  connected f c =
      let greeted = send_all greeting (report on_connect (record c { net_connected = true })) in
      let reading = record greeted { loop = add_io_event f epollin greeted.loop } in
      if is_empty reading.out_queue
      then reading
      else record reading { loop = add_io_event f epollout reading.loop }

  -- `none` is an exception.
  unfoldable pub do_connect : Connect → TcpClient → Option TcpClient
  unfolding connected close_old
  do_connect no_socket c = none
  do_connect refused c = none
  do_connect (connected_at f) c = some (connected f (record (close_old c) { sockfd = some f }))
  do_connect (once_ready_at f) c =
      let c' = close_old c in
      some (record c' { sockfd = some f; loop = add_io_event f epollout c'.loop })

  -- `connectEventCallback`; `succeeded` says whether SO_ERROR is 0.
  unfoldable pub connect_event : Bool → ℕ → TcpClient → TcpClient
  unfolding connected
  connect_event succeeded fd c =
      let c' = record c { loop = del_io_event fd c.loop } in
      if succeeded then connected fd c' else report retry_later c'

  unfoldable pub start_loop : Connect → TcpClient → Option TcpClient
  unfolding do_connect
  start_loop answer c = if c.running then some c else elim (do_connect answer c) [
    | none ↦ none
    | some c' ↦ some (record c' { running = true })
  ]

module _ (greeting farewell : List Reply) where
  -- `onClose` comes when the client is no longer connected.
  unfoldable pub clean_connection : Connect → TcpClient → Option TcpClient
  unfolding do_connect drop_socket send_all
  clean_connection answer c =
      do_connect greeting answer
        (send_all farewell (report on_close (record (drop_socket c) { net_connected = false })))

  module _ (callback : ℕ → Buffer → List Reply) where
    -- What was read is one message, whatever its head says of its length. `none` is a read past the
    -- end of the buffer, or an exception.
    unfoldable pub receive : Connect → Buffer → TcpClient → Option TcpClient
    unfolding read_head send_all clean_connection
    receive answer buffer c = elim (read_head buffer) [
      | none ↦ none
      | some head ↦
          let bytes = drop sizeof_msg_head buffer in
          if exist c.dispatcher head.cmd_id
          then some (send_all (callback head.cmd_id bytes) (report (message head.cmd_id bytes) c))
          else clean_connection answer c
    ]

    -- `none`: the reads are interrupted, or answer EAGAIN, which the code asserts not to happen.
    unfoldable pub handle_read :
        Option ℕ → List (Attempt Buffer) → Connect → TcpClient → Option TcpClient
    unfolding receive retry
    handle_read announced reads answer c = if not c.net_connected then some c else elim announced [
      | none ↦ some c
      | some n ↦ elim (retry reads) [
        | none ↦ none
        | some eintr ↦ none
        | some eagain ↦ none
        | some error ↦ clean_connection answer c
        | some (done []) ↦ clean_connection answer c
        | some (done (b ∷ bs)) ↦ if length (b ∷ bs) == n then receive answer (b ∷ bs) c else some c
      ]
    ]

  -- The loop of `handleWrite`; each round takes the answers to its own writes.
  unfoldable pub write_loop :
      List (List (Attempt ℕ)) → Connect → IoBufferQueue → TcpClient → Option TcpClient
  unfolding clean_connection retry
  write_loop answers answer [] c = some (elim c.sockfd [
    | none ↦ record c { out_queue = [] }
    | some f ↦ record c { out_queue = []; loop = del_io_mask f epollout c.loop }
  ])
  write_loop [] answer (b ∷ q) c = none
  write_loop (writes ∷ answers) answer (b ∷ q) c =
      let next = write_loop answers answer q c in
      elim (retry writes) [
        | some (done (suc n)) ↦ next
        | some error ↦ clean_connection answer (record c { out_queue = b ∷ q })
        | some eagain ↦ some (record c { out_queue = b ∷ q })
        | some (done zero) ↦ some (record c { out_queue = b ∷ q })
        | other ↦ none
      ]

  unfoldable pub handle_write : List (List (Attempt ℕ)) → Connect → TcpClient → Option TcpClient
  unfolding write_loop
  handle_write answers answer c =
      if not c.net_connected
      then some c
      else if is_empty c.out_queue
      then some c
      else write_loop answers answer c.out_queue c
