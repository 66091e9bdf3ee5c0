-- ===== src/Client/Tests.antt =====
-- Runs of the client on small inputs.
use posix_bsp_perf.Prelude.{
  ℕ, ◌≡◌, refl, true, false, none, some, List, [], ◌∷◌, ◌++◌, lookup, insert, erase, arith,
}
use posix_bsp_perf.Message.{put_le, packet}
use posix_bsp_perf.Dispatcher.{empty}
use posix_bsp_perf.Registry.{interest, epollout, add_io_event, del_io_event}
use posix_bsp_perf.Connection.{Reply}
use posix_bsp_perf.Buffers.{Buffer}
use posix_bsp_perf.Syscall.{done, eintr}
use posix_bsp_perf.Dispatcher.{exist}
use posix_bsp_perf.Client.Reading.{handle_read-packet}
use posix_bsp_perf.Client.{
  message, report, handle_read, TcpClient, once_ready_at, send_data, send_all, drop_socket,
  close_old, do_connect, clean_connection, connect_event,
}
use posix_bsp_perf.Client.Writing.{Attends, send_data-Attends, connect_event-Attends}
use posix_bsp_perf.Client.Keeps.{Extends, clean_connection-Extends}

-- A client with a buffer left from its last connection, while the next one is under way.
abbrev under_way : TcpClient
under_way = record {
  sockfd = some 6;
  net_connected = false;
  running = true;
  loop = (6, epollout) ∷ [];
  dispatcher = empty;
  out_queue = (1 ∷ 2 ∷ []) ∷ [];
  actions = [];
}

abbrev hello : Reply
hello = record { padding = 0; cmd_id = 5; bytes = 1 ∷ [] }

connect_event-Attends_run : Attends (connect_event (hello ∷ []) true 6 under_way)
connect_event-Attends_run = connect_event-Attends (hello ∷ []) 6 under_way refl

send_data-Attends_run : Attends (send_data hello (connect_event (hello ∷ []) true 6 under_way)).1
send_data-Attends_run =
    send_data-Attends hello (connect_event (hello ∷ []) true 6 under_way) connect_event-Attends_run

abbrev again : TcpClient
unfolding clean_connection drop_socket send_all send_data do_connect close_old add_io_event
    del_io_event interest lookup insert erase
again = elim (clean_connection [] (hello ∷ []) (once_ready_at 7) under_way) [
  | none ↦ under_way
  | some c ↦ c
]

clean_connection-Extends_run : Extends under_way.out_queue again
unfolding again
clean_connection-Extends_run =
    clean_connection-Extends [] (hello ∷ []) (once_ready_at 7) under_way again refl

abbrev online : TcpClient
online = record under_way {
  net_connected = true;
  dispatcher = record { callbacks = (5, 1) ∷ []; args = (5, 2) ∷ [] };
}

known : exist online.dispatcher 5 ≡ true
unfolding exist lookup
known = refl

-- One packet and the first byte of the next one.
abbrev one_read : Buffer
unfolding packet put_le
one_read = packet 0 5 (10 ∷ 20 ∷ []) ++ 7 ∷ []

abbrev answer_hello : ℕ → Buffer → List Reply
answer_hello cmd_id bytes = hello ∷ []

handle_read-packet_run :
    handle_read [] [] answer_hello (some 19) (eintr ∷ done one_read ∷ []) (once_ready_at 7) online
    ≡ some (send_all (hello ∷ []) (report (message 5 (10 ∷ 20 ∷ 7 ∷ [])) online))
unfolding one_read packet put_le
handle_read-packet_run =
    handle_read-packet [] [] answer_hello (once_ready_at 7) online 1 0 5 (10 ∷ 20 ∷ []) (7 ∷ [])
      refl known (omega arith) (omega arith)
