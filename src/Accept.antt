-- ===== src/Accept.antt =====
-- bsp/bsp_sockets/impl/TcpServer.cpp: starting, accepting and stopping, and the message handler of
-- ThreadPool.cpp, by which another thread takes over an accepted descriptor. The server's command
-- table and counter are the record Server of Connection. `m_connections_pool` is a map from
-- descriptors to connections with `conns_size` slots; a slot that holds no connection is absent.
-- What a stored connection holds of its server and its loop is put in its place when it is used.
pub mod Limit
pub mod Takeover
pub mod Alone
mod Tests
use posix_bsp_perf.Prelude.{
  ℕ, Bool, true, false, Option, none, some, List, [], ◌∷◌, ◌++◌, Map, lookup, insert, ltb, leb,
  if◌then◌else◌, not,
}
use posix_bsp_perf.Registry.{Registry, epollin, add_io_event, del_io_event}
use posix_bsp_perf.Workers.{
  QueueMsg, new_conn, stop_thd, new_task, ThreadPool, create, get_next_thread, send_to,
}
use posix_bsp_perf.Connection.{Server, TcpConnection, activate}

-- One answer of `::accept`: a descriptor comes with the answers of the `setsockopt` for keep-alive,
-- of the one for TCP_NODELAY, and of the `open` that is made if the descriptors had run out.
pub data Accepted : Type 0 where
  interrupted emfile would_block broken : Accepted
  accepted : ℕ → Bool → Bool → Bool → Accepted

-- What becomes of the accepted descriptors, in order.
pub data Outcome : Type 0 where
  closed : ℕ → Outcome
  handed : ℕ → ℕ → Outcome
  activated : ℕ → Outcome

pub record TcpServer : Type 0 where
  pub shared : Server
  pub loop : Registry
  pub connections_pool : Map TcpConnection
  pub conns_size : ℕ
  pub max_connections : ℕ
  pub thread_num : ℕ
  pub keep_alive : Bool
  pub running : Bool
  pub thread_pool : Option ThreadPool
  pub sockfd : ℕ
  pub reserve_open : Bool
  pub outcomes : List Outcome

abbrev pub note : Outcome → TcpServer → TcpServer
note o s = record s { outcomes = s.outcomes ++ o ∷ [] }

-- `none` is the exception for a bad number of threads.
unfoldable pub start_loop : TcpServer → Option TcpServer
unfolding create
start_loop s =
    if s.running
    then some s
    else (let started = record s { loop = add_io_event s.sockfd epollin s.loop; running = true } in
        if ltb 0 s.thread_num
        then elim (create s.thread_num) [
          | none ↦ none
          | some p ↦ some (record started { thread_pool = some p })
        ]
        else some started)

unfoldable pub stop : TcpServer → TcpServer
stop s = if not s.running then s else (record s {
  thread_pool = none;
  loop = del_io_event s.sockfd s.loop;
  outcomes = s.outcomes ++ closed s.sockfd ∷ [];
  reserve_open = false;
  running = false;
})

-- A new connection of the server.
abbrev pub make_connection : TcpServer → Registry → TcpConnection
make_connection s loop = record {
  fd = none;
  loop = loop;
  server = some s.shared;
  in_queue = [];
  out_queue = [];
  actions = [];
}

-- The connection of a descriptor's slot, or a new one if the slot is empty.
unfoldable pub pooled : TcpServer → Registry → ℕ → TcpConnection
pooled s loop connfd = elim (lookup connfd s.connections_pool) [
  | none ↦ make_connection s loop
  | some c ↦ record c { server = some s.shared; loop = loop }
]

abbrev pub server_of : TcpConnection → Server → Server
server_of c s = elim c.server [ none ↦ s | some s' ↦ s' ]

-- Takes the descriptor into a loop, which is returned with the server.
unfoldable pub take_over : Bool → ℕ → Registry → TcpServer → Option (Registry × TcpServer)
unfolding pooled activate
take_over nodelay_ok connfd loop s = elim (activate connfd loop nodelay_ok (pooled s loop connfd)) [
  | none ↦ none
  | some c ↦ some (
    c.loop,
    record s {
      shared = server_of c s.shared;
      connections_pool = insert connfd c s.connections_pool;
    },
  )
]

-- In the server's own thread.
unfoldable pub activate_here : Bool → ℕ → TcpServer → Option TcpServer
unfolding take_over
activate_here nodelay_ok connfd s = elim (take_over nodelay_ok connfd s.loop s) [
  | none ↦ none
  | some (loop, s') ↦ some (note (activated connfd) (record s' { loop = loop }))
]

-- To the next thread of the pool; its eventfd is written.
unfoldable pub hand_over : ThreadPool → ℕ → TcpServer → TcpServer
unfolding get_next_thread send_to
hand_over p connfd s =
    let (i, p') = get_next_thread p in
    note (handed connfd i) (record s { thread_pool = some (send_to true i (new_conn connfd) p') })

-- The `else` branch of `doAccept`: a descriptor is accepted.
unfoldable pub admit : Bool → Bool → ℕ → TcpServer → Option TcpServer
unfolding hand_over activate_here
admit keepalive_ok nodelay_ok connfd s =
    if leb s.max_connections s.shared.curr_conns
    then some (note (closed connfd) s)
    else if leb s.conns_size connfd
    then none
    else if (if s.keep_alive then not keepalive_ok else false)
    then none
    else elim s.thread_pool [
      | some p ↦ some (hand_over p connfd s)
      | none ↦ activate_here nodelay_ok connfd s
    ]

-- The loop of `doAccept` from its flag `conn_full`, on the answers of `::accept`. `none` is an
-- exception, a failed assertion, or answers that end before the loop does.
unfoldable pub accept_loop : Bool → List Accepted → TcpServer → Option TcpServer
accept_loop conn_full [] s = none
accept_loop conn_full (interrupted ∷ answers) s = accept_loop conn_full answers s
accept_loop conn_full (emfile ∷ answers) s =
    accept_loop true answers (record s { reserve_open = false })
accept_loop conn_full (would_block ∷ answers) s = some s
accept_loop conn_full (broken ∷ answers) s = none
accept_loop true (accepted connfd keepalive_ok nodelay_ok open_ok ∷ answers) s =
    let later =
      accept_loop false answers (note (closed connfd) (record s { reserve_open = true })) in
    if open_ok then later else none
accept_loop false (accepted connfd keepalive_ok nodelay_ok open_ok ∷ answers) s =
    elim (admit keepalive_ok nodelay_ok connfd s) [
      | none ↦ none
      | some s' ↦ accept_loop false answers s'
    ]

unfoldable pub do_accept : List Accepted → TcpServer → Option TcpServer
unfolding accept_loop
do_accept answers s = accept_loop false answers s

-- `onMsgComing`, on the messages that were received by the thread of the loop; the second list are
-- the tasks that the loop is given. The server is alive.
unfoldable pub on_msg_coming :
    List QueueMsg → Registry → List ℕ → TcpServer → Option (Registry × List ℕ × TcpServer)
on_msg_coming [] loop tasks s = some (loop, tasks, s)
on_msg_coming (new_conn fd ∷ msgs) loop tasks s = elim (take_over true fd loop s) [
  | none ↦ none
  | some (loop', s') ↦ on_msg_coming msgs loop' tasks s'
]
on_msg_coming (new_task task ∷ msgs) loop tasks s = on_msg_coming msgs loop (tasks ++ task ∷ []) s
on_msg_coming (stop_thd ∷ msgs) loop tasks s = on_msg_coming msgs loop tasks s
