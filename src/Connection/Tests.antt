-- ===== src/Connection/Tests.antt =====
-- Runs of a connection on small inputs.
use posix_bsp_perf.Prelude.{
  ℕ, ◌+◌, ◌<◌, ◌≤◌, ◌≡◌, refl, true, none, some, List, [], ◌∷◌, ◌++◌, arith, lookup, insert, length,
}
use posix_bsp_perf.Message.{put_le, get_le, read_head, packet, is_bad_length}
use posix_bsp_perf.Message.Codec.{read_head-packet}
use posix_bsp_perf.Syscall.{done, retry}
use posix_bsp_perf.Buffers.{Buffer, returned, read_data, write_fd, keep_read}
use posix_bsp_perf.Buffers.Effects.{bytes_queued, read_data_bounded, write_fd_partial}
use posix_bsp_perf.Dispatcher.{exist, add_msg_callback, callback_func, empty}
use posix_bsp_perf.Dispatcher.Register.{callback_func-add_msg_callback}
use posix_bsp_perf.Registry.{epollin, no_mask, del_io_mask, interest, add_io_event}
use posix_bsp_perf.Connection.{
  Server, TcpConnection, delivered, half, deliver, inspect, Reply, drain, handle_read, send_data,
  handle_write, write_loop, finish_write, end_write, activate, clean_connection, notify_server,
  inc_connection,
}
use posix_bsp_perf.Connection.Framing.{inspect-packet, inspect_truncates}
use posix_bsp_perf.Connection.Reading.{
  Message, wire, drain_delivers, handle_read_delivers, read_all, read_all_half,
}
use posix_bsp_perf.Connection.Writing.{Listens, send_data-Listens, handle_write-Listens}
use posix_bsp_perf.Connection.Closing.{Closed, clean_connection-Closed, clean_connection-activate}

abbrev server : Server
server = record {
  dispatcher = record { callbacks = (5, 1) ∷ []; args = (5, 2) ∷ [] };
  curr_conns = 3;
}

abbrev message : Message
message = record { padding = 0; cmd_id = 5; bytes = 10 ∷ 20 ∷ 30 ∷ [] }

abbrev fresh : TcpConnection
fresh = record {
  fd = some 9;
  loop = (9, epollin) ∷ [];
  server = some server;
  in_queue = [];
  out_queue = [];
  actions = [];
}

abbrev echo : ℕ → Buffer → List Reply
echo cmd_id bytes = record { padding = 0; cmd_id = cmd_id; bytes = bytes } ∷ []

known : exist server.dispatcher 5 ≡ true
unfolding exist lookup
known = refl

-- The head of `message`, with the first of its three bytes.
abbrev first_part : Buffer
first_part = 5 ∷ 0 ∷ 0 ∷ 0 ∷ 0 ∷ 0 ∷ 0 ∷ 0 ∷ 3 ∷ 0 ∷ 0 ∷ 0 ∷ 0 ∷ 0 ∷ 0 ∷ []

-- The same with sixteen bytes, which pass for the whole.
abbrev cut_part : Buffer
cut_part = first_part ++ 0 ∷ []

abbrev waiting_half : TcpConnection
waiting_half = record fresh {
  in_queue = (5 ∷ 0 ∷ 0 ∷ 0 ∷ 0 ∷ 0 ∷ 0 ∷ 0 ∷ 9 ∷ 0 ∷ 0 ∷ 0 ∷ 0 ∷ 0 ∷ 0 ∷ 0 ∷ 1 ∷ []) ∷ [];
}

stuck :
    inspect waiting_half.server
      (5 ∷ 0 ∷ 0 ∷ 0 ∷ 0 ∷ 0 ∷ 0 ∷ 0 ∷ 9 ∷ 0 ∷ 0 ∷ 0 ∷ 0 ∷ 0 ∷ 0 ∷ 0 ∷ 1 ∷ [])
    ≡ half
unfolding inspect read_head get_le is_bad_length
stuck = refl

read_head-packet_run :
    read_head (packet 0 5 (10 ∷ 20 ∷ []) ++ 7 ∷ []) ≡ some (record { cmd_id = 5; length = 2 })
read_head-packet_run = read_head-packet 0 5 (10 ∷ 20 ∷ []) (7 ∷ []) (omega arith) (omega arith)

inspect-packet_run :
    inspect (some server) (packet 0 5 (10 ∷ 20 ∷ []) ++ 7 ∷ []) ≡ deliver 5 (10 ∷ 20 ∷ 7 ∷ [])
inspect-packet_run =
    inspect-packet server 0 5 (10 ∷ 20 ∷ []) (omega arith) (omega arith) (7 ∷ []) known

cut_head : read_head cut_part ≡ some (record { cmd_id = 5; length = 3 })
unfolding read_head get_le
cut_head = refl

inspect_truncates_run :
    (bytes : Buffer) × (inspect (some server) cut_part ≡ deliver 5 bytes) × (length bytes < 3)
inspect_truncates_run =
    inspect_truncates server cut_part (record { cmd_id = 5; length = 3 }) cut_head (omega arith)
      known (omega arith) (omega arith)

drain_delivers_example :
    (c' : TcpConnection) × (drain echo
        (wire message ∷ wire message ∷ [])
        (record fresh { in_queue = wire message ∷ wire message ∷ [] })
      ≡ some c')
    × (c'.actions ≡ delivered 5 (10 ∷ 20 ∷ 30 ∷ []) ∷ delivered 5 (10 ∷ 20 ∷ 30 ∷ []) ∷ [])
    × (c'.in_queue ≡ [])
    × (c'.server ≡ some server)
drain_delivers_example =
    drain_delivers echo (message ∷ message ∷ []) server
      (record fresh { in_queue = wire message ∷ wire message ∷ [] })
      ((omega arith, omega arith, known), ((omega arith, omega arith, known), tt)) refl refl

handle_read_delivers_run :
    (c' : TcpConnection) × (handle_read echo
        (some (length (wire message)))
        (done (wire message) ∷ [])
        fresh
      ≡ some c')
    × (c'.actions ≡ delivered 5 (10 ∷ 20 ∷ 30 ∷ []) ∷ [])
    × (c'.in_queue ≡ [])
handle_read_delivers_run =
    handle_read_delivers echo message server fresh 0 (omega arith, omega arith, known) refl refl

read_all_half_run :
    read_all echo ((2 ∷ []) ∷ wire message ∷ []) waiting_half
    ≡ some
        (record waiting_half { in_queue = waiting_half.in_queue ++ (2 ∷ []) ∷ wire message ∷ [] })
unfolding packet
read_all_half_run =
    read_all_half echo ((2 ∷ []) ∷ wire message ∷ []) _ [] waiting_half refl stuck (omega arith)
      (omega arith, (omega arith, tt))

fresh-Listens : Listens fresh
unfolding interest lookup
fresh-Listens f e = ground arith

send_data-Listens_run : Listens (send_data 0 5 (10 ∷ []) fresh)
send_data-Listens_run = send_data-Listens 0 5 (10 ∷ []) fresh fresh-Listens

abbrev writing : TcpConnection
unfolding send_data put_le packet add_io_event interest lookup insert
writing = send_data 0 5 (10 ∷ []) fresh

writing-Listens : Listens writing
unfolding writing
writing-Listens = send_data-Listens 0 5 (10 ∷ []) fresh fresh-Listens

abbrev written : TcpConnection
unfolding handle_write write_loop write_fd retry finish_write end_write del_io_mask lookup insert
written = elim (handle_write ((done 17 ∷ []) ∷ []) writing) [ none ↦ fresh | some c ↦ c ]

handle_write-Listens_example : Listens written
unfolding written writing
handle_write-Listens_example =
    handle_write-Listens ((done 17 ∷ []) ∷ []) writing written writing-Listens refl

clean_connection-Closed_run : Closed fresh server 9 (clean_connection fresh)
clean_connection-Closed_run =
    clean_connection-Closed fresh server 9 refl refl (omega arith) (omega arith)

abbrev active : TcpConnection
unfolding activate notify_server inc_connection add_io_event interest lookup insert
active = elim (activate 4 [] true fresh) [ none ↦ fresh | some c ↦ c ]

clean_connection-activate_run :
    ((clean_connection active).server ≡ some server)
    × (interest (clean_connection active).loop 4 ≡ no_mask)
unfolding active activate
clean_connection-activate_run =
    clean_connection-activate fresh active server 4 [] refl (omega arith) refl

abbrev one_buffer : List Buffer
one_buffer = (1 ∷ []) ∷ []

read_data_bounded_run : length one_buffer ≤ 256
unfolding read_data keep_read retry
read_data_bounded_run =
    read_data_bounded [] (some 1) (done (1 ∷ []) ∷ []) (returned 1) one_buffer (omega arith) refl

write_fd_partial_run :
    (write_fd ((1 ∷ 2 ∷ 3 ∷ []) ∷ []) (done 2 ∷ []) ≡ some (returned 2, []))
    × (bytes_queued [] + 2 < bytes_queued ((1 ∷ 2 ∷ 3 ∷ []) ∷ []))
write_fd_partial_run = write_fd_partial (1 ∷ 2 ∷ 3 ∷ []) [] 0 2 [] (omega arith)

callback_func-add_msg_callback_run :
    ((add_msg_callback (λ n. n) empty 5 1 2).0 ≡ true)
    × (callback_func (add_msg_callback (λ n. n) empty 5 1 2).1 5 ≡ some (1, 2))
unfolding exist lookup
callback_func-add_msg_callback_run = callback_func-add_msg_callback (λ n. n) empty 5 1 2 5 refl
