-- ===== src/Accept/Tests.antt =====
-- Runs of the server on small inputs.
use posix_bsp_perf.Prelude.{
  ◌≡◌, refl, true, false, none, some, List, [], ◌∷◌, map, lookup, insert, arith,
}
use posix_bsp_perf.Dispatcher.{empty}
use posix_bsp_perf.Registry.{Registry, add_io_event, interest}
use posix_bsp_perf.Workers.{ThreadPool, empty_queue, new_conn}
use posix_bsp_perf.Connection.{activate, notify_server, inc_connection}
use posix_bsp_perf.Accept.{
  TcpServer, Accepted, interrupted, emfile, would_block, accepted, Outcome, do_accept, accept_loop,
  admit, activate_here, take_over, pooled, on_msg_coming,
}
use posix_bsp_perf.Accept.Limit.{Within, do_accept-Within}
use posix_bsp_perf.Accept.Takeover.{burst, handed_fds, do_accept_overruns, on_msg_coming_counts}
use posix_bsp_perf.Accept.Alone.{do_accept_alone}

abbrev small : TcpServer
small = record {
  shared = record { dispatcher = empty; curr_conns = 0 };
  loop = [];
  connections_pool = [];
  conns_size = 100;
  max_connections = 1;
  thread_num = 0;
  keep_alive = false;
  running = true;
  thread_pool = none;
  sockfd = 3;
  reserve_open = true;
  outcomes = [];
}

small-Within : Within small
small-Within = record { limited = omega arith; is_int = omega arith; alone = refl }

abbrev two_threads : ThreadPool
two_threads = record { thread_cnt = 2; curr_index = 0; pool = empty_queue ∷ empty_queue ∷ [] }

-- The descriptors run out in between, and the second one accepted is over the limit.
abbrev answers : List Accepted
answers =
    accepted 7 true true true
    ∷ interrupted
    ∷ emfile
    ∷ accepted 8 true true true
    ∷ accepted 9 true true true
    ∷ would_block
    ∷ []

abbrev served : TcpServer
unfolding do_accept accept_loop admit activate_here take_over pooled activate notify_server
    inc_connection add_io_event interest lookup insert
served = elim (do_accept answers small) [ none ↦ small | some s ↦ s ]

served_outcomes : served.outcomes ≡ Outcome.activated 7 ∷ Outcome.closed 8 ∷ Outcome.closed 9 ∷ []
unfolding served
served_outcomes = refl

do_accept-Within_example : Within served
unfolding served
do_accept-Within_example = do_accept-Within answers small served small-Within refl

do_accept_alone_run :
    (s' : TcpServer) × (do_accept (burst (7 ∷ 8 ∷ [])) small ≡ some s') × (s'.shared.curr_conns ≡ 1)
do_accept_alone_run =
    do_accept_alone (7 ∷ 8 ∷ []) small small-Within (omega arith, (omega arith, tt))

do_accept_overruns_run :
    (s' : TcpServer) × (do_accept
        (burst (7 ∷ 8 ∷ []))
        (record small { thread_pool = some two_threads })
      ≡ some s')
    × (handed_fds s'.outcomes ≡ 7 ∷ 8 ∷ [])
    × (s'.shared ≡ small.shared)
do_accept_overruns_run =
    do_accept_overruns (7 ∷ 8 ∷ []) (record small { thread_pool = some two_threads }) two_threads
      refl (omega arith) (omega arith, (omega arith, tt))

on_msg_coming_counts_run :
    (loop' : Registry) × (s' : TcpServer) × (on_msg_coming (map new_conn (7 ∷ 8 ∷ [])) [] [] small
      ≡ some (loop', [], s'))
    × (s'.shared.curr_conns ≡ 2)
on_msg_coming_counts_run = on_msg_coming_counts (7 ∷ 8 ∷ []) [] [] small (omega arith)
