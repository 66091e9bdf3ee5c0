-- ===== src/Client/Reading.antt =====
-- TcpClient::handleRead: a read is taken for one message.
use posix_bsp_perf.Prelude.{
  ℕ, ◌^◌, ◌<◌, ◌≡◌, ap, ◌∙◌, true, some, List, [], ◌∷◌, ◌++◌, length, length-append, arith,
}
use posix_bsp_perf.Message.{packet}
use posix_bsp_perf.Message.Codec.{read_head-packet, drop-packet, length-packet}
use posix_bsp_perf.Syscall.{done, retry, interruptions, retry-interruptions}
use posix_bsp_perf.Buffers.{Buffer}
use posix_bsp_perf.Dispatcher.{exist}
use posix_bsp_perf.Connection.{Reply}
use posix_bsp_perf.Client.{TcpClient, Connect, message, report, send_all, receive, handle_read}

module _ (greeting farewell : List Reply) (callback : ℕ → Buffer → List Reply) (answer : Connect)
    (c : TcpClient) where
  receive-packet :
      (padding cmd_id : ℕ) (bytes rest : Buffer)
      → cmd_id < 2 ^ 64
      → length bytes < 2 ^ 32
      → exist c.dispatcher cmd_id ≡ true
      → receive greeting farewell callback answer (packet padding cmd_id bytes ++ rest) c
        ≡ some
            (send_all (callback cmd_id (bytes ++ rest)) (report (message cmd_id (bytes ++ rest)) c))
  unfolding receive
  receive-packet padding cmd_id bytes rest fits short known =
      rw (read_head-packet padding cmd_id bytes rest fits short, receive)
        (rw (known) (
          ap (λ d. some (send_all (callback cmd_id d) (report (message cmd_id d) c)))
            (drop-packet padding cmd_id bytes rest)))

  handle_read_got :
      (k : ℕ) (buffer : Buffer)
      → 0 < length buffer
      → c.net_connected ≡ true
      → handle_read greeting farewell callback
          (some (length buffer))
          (interruptions k (done buffer ∷ []))
          answer
          c
        ≡ receive greeting farewell callback answer buffer c
  unfolding handle_read
  handle_read_got k [] h on = absurd (omega arith)
  handle_read_got k (b ∷ bs) h on =
      rw (on, handle_read)
        (rw (retry-interruptions k (done (b ∷ bs) ∷ [])) (unfold retry in (ground arith)))

  -- A connected client that reads a packet of a registered command in one piece, after any number of
  -- interruptions, runs the callback on the packet's data and queues what it sends. Whatever stands
  -- behind the packet, such as the next packet that the same read brought, is passed on as more data
  -- of the first. The command id fits a size_t, the data's length an unsigned int.
  pub handle_read-packet :
      (k padding cmd_id : ℕ) (bytes rest : Buffer)
      → c.net_connected ≡ true
      → exist c.dispatcher cmd_id ≡ true
      → cmd_id < 2 ^ 64
      → length bytes < 2 ^ 32
      → handle_read greeting farewell callback
          (some (length (packet padding cmd_id bytes ++ rest)))
          (interruptions k (done (packet padding cmd_id bytes ++ rest) ∷ []))
          answer
          c
        ≡ some
            (send_all (callback cmd_id (bytes ++ rest)) (report (message cmd_id (bytes ++ rest)) c))
  handle_read-packet k padding cmd_id bytes rest on known fits short =
      handle_read_got k (packet padding cmd_id bytes ++ rest)
        (omega (
          arith,
          length-append (packet padding cmd_id bytes) rest,
          length-packet padding cmd_id bytes,
        ))
        on
      ∙ receive-packet padding cmd_id bytes rest fits short known
