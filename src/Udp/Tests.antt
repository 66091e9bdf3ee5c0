-- ===== src/Udp/Tests.antt =====
-- Runs of the datagram endpoints on small inputs.
use posix_bsp_perf.Prelude.{
  ℕ, ◌+◌, ◌≡◌, refl, none, some, true, List, [], ◌∷◌, lookup, length, replicate, arith,
}
use posix_bsp_perf.Message.{packet}
use posix_bsp_perf.Buffers.{Buffer}
use posix_bsp_perf.Dispatcher.{callback_func}
use posix_bsp_perf.Connection.{Reply}
use posix_bsp_perf.Udp.{
  UdpEndpoint, datagram, would_block, delivered, sent, log, send_data, send_all, server_handle_read,
  client_handle_read,
}
use posix_bsp_perf.Udp.Sending.{send_data-packet}
use posix_bsp_perf.Udp.Receiving.{
  took, client_handle_read-packet, server_handle_read_unknown, server_handle_read-send_data,
}

-- An endpoint with short buffers that knows the command 5.
abbrev endpoint : UdpEndpoint
endpoint = record {
  sockfd = 8;
  running = true;
  loop = [];
  dispatcher = record { callbacks = (5, 1) ∷ []; args = (5, 2) ∷ [] };
  rbuf = replicate 24 9;
  wbuf = replicate 24 0;
  peer = 1;
  actions = [];
}

abbrev hello : Reply
hello = record { padding = 0; cmd_id = 5; bytes = 10 ∷ 20 ∷ [] }

abbrev silent : ℕ → Buffer → List Reply
silent cmd_id bytes = []

known : callback_func endpoint.dispatcher 5 ≡ some (1, 2)
unfolding callback_func lookup
known = refl

unknown : callback_func endpoint.dispatcher 6 ≡ none
unfolding callback_func lookup
unknown = refl

send_data-packet_run :
    ((send_data hello endpoint).actions ≡ sent 1 (packet 0 5 (10 ∷ 20 ∷ [])) ∷ [])
    × (length (send_data hello endpoint).wbuf ≡ 26)
send_data-packet_run = send_data-packet hello endpoint (omega arith)

client_handle_read-packet_run :
    (got : Buffer) × (got ≡ 10 ∷ 20 ∷ 9 ∷ 9 ∷ 9 ∷ 9 ∷ 9 ∷ 9 ∷ [])
    × (length got + 16 ≡ 24)
    × (client_handle_read silent
          (datagram 3 (packet 0 5 (10 ∷ 20 ∷ [])) ∷ would_block ∷ [])
          endpoint
        ≡ some (send_all [] (log (delivered 5 got) (took 3 (packet 0 5 (10 ∷ 20 ∷ [])) endpoint))))
client_handle_read-packet_run =
    client_handle_read-packet silent 3 0 5 (10 ∷ 20 ∷ []) endpoint (omega arith) (omega arith)
      (omega arith) (1, 2) known

server_handle_read_unknown_run :
    server_handle_read silent (datagram 3 (packet 0 6 (10 ∷ [])) ∷ would_block ∷ []) endpoint ≡ none
server_handle_read_unknown_run =
    server_handle_read_unknown silent 3 0 6 (10 ∷ []) endpoint (omega arith) (omega arith)
      (omega arith) (would_block ∷ []) unknown

server_handle_read-send_data_example :
    (d : Buffer) × ((send_data hello endpoint).actions ≡ sent 1 d ∷ [])
    × (server_handle_read silent (datagram 3 d ∷ would_block ∷ []) endpoint
        ≡ some (send_all [] (log (delivered 5 (10 ∷ 20 ∷ [])) (took 3 d endpoint))))
server_handle_read-send_data_example =
    server_handle_read-send_data silent 3 hello endpoint endpoint (1, 2) (omega arith) (omega arith)
      (omega arith) (omega arith) known
