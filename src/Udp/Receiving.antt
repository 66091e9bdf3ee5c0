-- ===== src/Udp/Receiving.antt =====
-- What an endpoint makes of a datagram that is a packet.
use posix_bsp_perf.Prelude.{
  ℕ, ◌+◌, ◌^◌, ◌≤◌, ◌<◌, ◌≡◌, refl, ap, ◌∙◌, none, some, List, [], ◌∷◌, ◌++◌, length, length-append,
  length-drop, take, drop, take-append, take_all, arith,
}
use posix_bsp_perf.Message.{MsgHead, packet, read_head, sizeof_msg_head, msg_length_limit}
use posix_bsp_perf.Message.Codec.{length-packet, read_head-packet, drop-packet}
use posix_bsp_perf.Buffers.{Buffer}
use posix_bsp_perf.Dispatcher.{callback_func}
use posix_bsp_perf.Connection.{Reply}
use posix_bsp_perf.Udp.{
  UdpEndpoint, Datagram, datagram, would_block, delivered, sent, log, send_data, send_all, received,
  server_data, client_data, on_datagram, handle_read, server_handle_read, client_handle_read,
}
use posix_bsp_perf.Udp.Sending.{send_data-packet}

received_whole :
    (bytes rbuf : Buffer)
    → length bytes ≤ length rbuf
    → received bytes rbuf ≡ bytes ++ drop (length bytes) rbuf
unfolding received
received_whole bytes rbuf h =
    ap (λ b. b ++ drop (length bytes) rbuf) (take_all bytes (length rbuf) h)

-- The endpoint once the datagram is in its buffer.
abbrev pub took : ℕ → Buffer → UdpEndpoint → UdpEndpoint
took sender bytes u = record u { peer = sender; rbuf = bytes ++ drop (length bytes) u.rbuf }

module _ (callback : ℕ → Buffer → List Reply) (sender padding cmd_id : ℕ) (bytes : Buffer)
    (u : UdpEndpoint) (fits : cmd_id < 2 ^ 64) (short : length bytes ≤ msg_length_limit)
    (room : sizeof_msg_head + length bytes ≤ length u.rbuf) where
  head_of :
      read_head (received (packet padding cmd_id bytes) u.rbuf)
      ≡ some (record { cmd_id = cmd_id; length = length bytes })
  head_of =
      let p = packet padding cmd_id bytes in
      ap read_head (received_whole p u.rbuf (omega (arith, length-packet padding cmd_id bytes)))
      ∙ read_head-packet padding cmd_id bytes (drop (length p) u.rbuf) fits (omega arith)

  size_of :
      length (take (length u.rbuf) (packet padding cmd_id bytes)) ≡ length bytes + sizeof_msg_head
  size_of = omega (
    arith,
    ap length (
        take_all (packet padding cmd_id bytes) (length u.rbuf)
          (omega (arith, length-packet padding cmd_id bytes))),
    length-packet padding cmd_id bytes,
  )

  on_datagram-packet :
      (extract : MsgHead → Buffer → Buffer) (cb : ℕ × ℕ) (bytes' : Buffer)
      → callback_func u.dispatcher cmd_id ≡ some cb
      → extract
          (record { cmd_id = cmd_id; length = length bytes })
          (received (packet padding cmd_id bytes) u.rbuf)
        ≡ bytes'
      → on_datagram extract callback sender (packet padding cmd_id bytes) u
        ≡ some (
            send_all
              (callback cmd_id bytes')
              (log (delivered cmd_id bytes') (took sender (packet padding cmd_id bytes) u)))
  unfolding on_datagram
  on_datagram-packet extract cb bytes' known e =
      let p = packet padding cmd_id bytes in
      let whole = received_whole p u.rbuf (omega (arith, length-packet padding cmd_id bytes)) in
      rw (head_of, on_datagram) (rw (known) (rw (e) (rw (whole) (ground (arith, size_of)))))

  on_datagram_unknown :
      (extract : MsgHead → Buffer → Buffer)
      → callback_func u.dispatcher cmd_id ≡ none
      → on_datagram extract callback sender (packet padding cmd_id bytes) u ≡ none
  unfolding on_datagram
  on_datagram_unknown extract unknown = rw (head_of, on_datagram) (ground (arith, size_of, unknown))

  handle_read_one :
      (extract : MsgHead → Buffer → Buffer) (u' : UdpEndpoint)
      → on_datagram extract callback sender (packet padding cmd_id bytes) u ≡ some u'
      → handle_read extract callback
          (datagram sender (packet padding cmd_id bytes) ∷ would_block ∷ [])
          u
        ≡ some u'
  unfolding handle_read
  handle_read_one extract u' e = rw (e, handle_read) refl

  server_gets :
      (cb : ℕ × ℕ)
      → callback_func u.dispatcher cmd_id ≡ some cb
      → server_handle_read callback
          (datagram sender (packet padding cmd_id bytes) ∷ would_block ∷ [])
          u
        ≡ some (
            send_all
              (callback cmd_id bytes)
              (log (delivered cmd_id bytes) (took sender (packet padding cmd_id bytes) u)))
  unfolding server_handle_read
  server_gets cb known =
      let p = packet padding cmd_id bytes in
      let whole = received_whole p u.rbuf (omega (arith, length-packet padding cmd_id bytes)) in
      let got : take (length bytes) (drop sizeof_msg_head (received p u.rbuf)) ≡ bytes =
        ap (λ b. take (length bytes) (drop sizeof_msg_head b)) whole
        ∙ ap (take (length bytes)) (drop-packet padding cmd_id bytes (drop (length p) u.rbuf))
        ∙ take-append bytes (drop (length p) u.rbuf) (length bytes) refl in
      handle_read_one server_data _ (on_datagram-packet server_data cb bytes known got)

  -- A client that receives a packet of a registered command, within the size limits and with room
  -- for it, runs the callback on the packet's data and on everything that stands behind it in the read
  -- buffer: whatever was sent, the callback gets the length of the buffer less that of a head.
  pub client_handle_read-packet :
      (cb : ℕ × ℕ)
      → callback_func u.dispatcher cmd_id ≡ some cb
      → (got : Buffer) × (got ≡ bytes ++ drop (sizeof_msg_head + length bytes) u.rbuf)
        × (length got + sizeof_msg_head ≡ length u.rbuf)
        × (client_handle_read callback
              (datagram sender (packet padding cmd_id bytes) ∷ would_block ∷ [])
              u
            ≡ some (
                send_all
                  (callback cmd_id got)
                  (log (delivered cmd_id got) (took sender (packet padding cmd_id bytes) u))))
  unfolding client_handle_read
  client_handle_read-packet cb known =
      let p = packet padding cmd_id bytes in
      let got = bytes ++ drop (length p) u.rbuf in
      let whole = received_whole p u.rbuf (omega (arith, length-packet padding cmd_id bytes)) in
      let data_of : drop sizeof_msg_head (received p u.rbuf) ≡ got =
        ap (drop sizeof_msg_head) whole
        ∙ drop-packet padding cmd_id bytes (drop (length p) u.rbuf) in
      (
        got,
        ap (λ n. bytes ++ drop n u.rbuf) (length-packet padding cmd_id bytes),
        omega (
          arith,
          length-append bytes (drop (length p) u.rbuf),
          length-drop (length p) u.rbuf,
          length-packet padding cmd_id bytes,
        ),
        handle_read_one client_data _ (on_datagram-packet client_data cb got known data_of),
      )

  -- A packet of an unknown command, within the size limits, is an exception that leaves the loop,
  -- whatever datagrams follow: any sender can end the server.
  pub server_handle_read_unknown :
      (later : List Datagram)
      → callback_func u.dispatcher cmd_id ≡ none
      → server_handle_read callback (datagram sender (packet padding cmd_id bytes) ∷ later) u ≡ none
  unfolding server_handle_read handle_read
  server_handle_read_unknown later unknown =
      rw (on_datagram_unknown server_data unknown, handle_read) refl

-- What one endpoint sends, a server that has room for it and knows the command delivers with exactly
-- its data, and then sends what the callback answers. The command id fits a size_t and the data is
-- within the size limit.
pub server_handle_read-send_data :
    (callback : ℕ → Buffer → List Reply) (sender : ℕ) (r : Reply) (c u : UdpEndpoint) (cb : ℕ × ℕ)
    → r.cmd_id < 2 ^ 64
    → length r.bytes ≤ msg_length_limit
    → sizeof_msg_head ≤ length c.wbuf
    → sizeof_msg_head + length r.bytes ≤ length u.rbuf
    → callback_func u.dispatcher r.cmd_id ≡ some cb
    → (d : Buffer) × ((send_data r c).actions ≡ c.actions ++ sent c.peer d ∷ [])
      × (server_handle_read callback (datagram sender d ∷ would_block ∷ []) u
          ≡ some (
              send_all
                (callback r.cmd_id r.bytes)
                (log (delivered r.cmd_id r.bytes) (took sender d u))))
server_handle_read-send_data callback sender r c u cb fits short start room known = (
  packet r.padding r.cmd_id r.bytes,
  ground (arith, send_data-packet r c),
  server_gets callback sender r.padding r.cmd_id r.bytes u fits short room cb known,
)
