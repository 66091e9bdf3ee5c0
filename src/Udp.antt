-- ===== src/Udp.antt =====
-- bsp/bsp_sockets/impl/UdpServer.cpp and UdpClient.cpp: the datagram endpoints. Both classes have
-- the same members but for the server's address of its latest client, which the client lacks; it is
-- the field `peer`. A user callback reaches the endpoint through sendData only, so it is a function
-- from a message to the messages that it sends.
pub mod Sending
pub mod Receiving
mod Tests
use posix_bsp_perf.Prelude.{
  ℕ, ◌+◌, ◌%◌, ◌^◌, Bool, true, false, not, Option, none, some, List, [], ◌∷◌, ◌++◌, ltb, ◌==◌,
  if◌then◌else◌, length, take, drop, replicate,
}
use posix_bsp_perf.Message.{
  MsgHead, put_le, read_head, is_bad_length, sizeof_msg_head, msg_length_limit,
}
use posix_bsp_perf.Buffers.{Buffer}
use posix_bsp_perf.Dispatcher.{MsgDispatcher, callback_func}
use posix_bsp_perf.Registry.{Registry, epollin, add_io_event, del_io_event}
use posix_bsp_perf.Connection.{Reply}

-- What one call of `::recvfrom` returns: a datagram comes with the address of its sender.
pub data Datagram : Type 0 where
  interrupted would_block broken : Datagram
  datagram : ℕ → Buffer → Datagram

-- What an endpoint does that others see, in order.
pub data UdpAction : Type 0 where
  greeted closed_socket : UdpAction
  delivered sent : ℕ → Buffer → UdpAction

pub record UdpEndpoint : Type 0 where
  pub sockfd : ℕ
  pub running : Bool
  pub loop : Registry
  pub dispatcher : MsgDispatcher
  pub rbuf : Buffer
  pub wbuf : Buffer
  pub peer : ℕ
  pub actions : List UdpAction

-- What the constructors leave, once the socket is there.
unfoldable pub create : ℕ → Registry → UdpEndpoint
create sockfd loop = record {
  sockfd = sockfd;
  running = false;
  loop = loop;
  dispatcher = record { callbacks = []; args = [] };
  rbuf = replicate msg_length_limit 0;
  wbuf = replicate msg_length_limit 0;
  peer = 0;
  actions = [];
}

abbrev pub log : UdpAction → UdpEndpoint → UdpEndpoint
log a u = record u { actions = u.actions ++ a ∷ [] }

-- The sixteen bytes of a `msgHead`.
unfoldable pub head_bytes : ℕ → ℕ → ℕ → Buffer
unfolding put_le
head_bytes padding cmd_id n = put_le 8 cmd_id ++ (put_le 4 (n % 2 ^ 32) ++ put_le 4 padding)

-- `memcpy(m_wbuf.data(), &head, sizeof(msgHead))`, then `m_wbuf.insert` behind it.
unfoldable pub write_message : Reply → Buffer → Buffer
unfolding head_bytes
write_message r wbuf =
    head_bytes r.padding r.cmd_id (length r.bytes) ++ (r.bytes ++ drop sizeof_msg_head wbuf)

-- What `sendto` or `send` returns only passes through; the datagram is what it was given.
unfoldable pub send_data : Reply → UdpEndpoint → UdpEndpoint
unfolding write_message
send_data r u =
    if ltb msg_length_limit (length r.bytes)
    then u
    else (let wbuf = write_message r u.wbuf in
        log (sent u.peer (take (sizeof_msg_head + length r.bytes) wbuf)) (record u { wbuf = wbuf }))

unfoldable pub send_all : List Reply → UdpEndpoint → UdpEndpoint
unfolding send_data
send_all [] u = u
send_all (r ∷ rs) u = send_all rs (send_data r u)

-- `recvfrom` into the read buffer: as much of the datagram as the buffer holds, over its front.
unfoldable pub received : Buffer → Buffer → Buffer
received bytes rbuf = take (length rbuf) bytes ++ drop (length bytes) rbuf

abbrev pub pkg_len : Buffer → Buffer → ℕ
pkg_len bytes rbuf = length (take (length rbuf) bytes)

-- The data of a message in the read buffer, by its head: the server takes as much as the head
-- announces, the client all that the buffer holds.
abbrev pub server_data : MsgHead → Buffer → Buffer
server_data head rbuf = take head.length (drop sizeof_msg_head rbuf)

abbrev pub client_data : MsgHead → Buffer → Buffer
client_data head rbuf = drop sizeof_msg_head rbuf

module _ (extract : MsgHead → Buffer → Buffer) (callback : ℕ → Buffer → List Reply) where
  -- A round of the loop in `handleRead` on a datagram. `none` is the exception of `callbackFunc` for
  -- an unknown command, or a read past the end of the buffer.
  unfoldable pub on_datagram : ℕ → Buffer → UdpEndpoint → Option UdpEndpoint
  unfolding is_bad_length
  on_datagram sender bytes u =
      let u' = record u { peer = sender; rbuf = received bytes u.rbuf } in
      elim (read_head u'.rbuf) [
        | none ↦ none
        | some head ↦
            if is_bad_length head.length
            then some u'
            else if not (head.length + sizeof_msg_head == pkg_len bytes u.rbuf)
            then some u'
            else elim (callback_func u.dispatcher head.cmd_id) [
              | none ↦ none
              | some cb ↦
                  let bytes' = extract head u'.rbuf in
                  some
                    (send_all (callback head.cmd_id bytes') (log (delivered head.cmd_id bytes') u'))
            ]
      ]

  -- `none` too when the answers end before the loop does.
  unfoldable pub handle_read : List Datagram → UdpEndpoint → Option UdpEndpoint
  unfolding on_datagram
  handle_read [] u = none
  handle_read (interrupted ∷ answers) u = handle_read answers u
  handle_read (would_block ∷ answers) u = some u
  handle_read (broken ∷ answers) u = some u
  handle_read (datagram sender bytes ∷ answers) u = elim (on_datagram sender bytes u) [
    | none ↦ none
    | some u' ↦ handle_read answers u'
  ]

-- `UdpServer::handleRead` and `UdpClient::handleRead`
unfoldable pub server_handle_read :
    (ℕ → Buffer → List Reply) → List Datagram → UdpEndpoint → Option UdpEndpoint
unfolding handle_read
server_handle_read callback answers u = handle_read server_data callback answers u

unfoldable pub client_handle_read :
    (ℕ → Buffer → List Reply) → List Datagram → UdpEndpoint → Option UdpEndpoint
unfolding handle_read
client_handle_read callback answers u = handle_read client_data callback answers u

unfoldable pub server_start_loop : UdpEndpoint → UdpEndpoint
server_start_loop u =
    if u.running
    then u
    else record u { loop = add_io_event u.sockfd epollin u.loop; running = true }

-- The greeting is what the callback on connecting sends; none if there is no callback.
unfoldable pub client_start_loop : List Reply → UdpEndpoint → UdpEndpoint
unfolding send_all
client_start_loop greeting u =
    if u.running
    then u
    else (record (send_all greeting
        (log greeted (record u { loop = add_io_event u.sockfd epollin u.loop }))) {
          running = true;
        })

unfoldable pub stop : UdpEndpoint → UdpEndpoint
stop u = if not u.running then u else (record u {
  loop = del_io_event u.sockfd u.loop;
  actions = u.actions ++ closed_socket ∷ [];
  running = false;
})
