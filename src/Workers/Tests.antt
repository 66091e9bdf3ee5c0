-- ===== src/Workers/Tests.antt =====
-- Runs of the thread pool on small inputs.
use posix_bsp_perf.Prelude.{◌≡◌, refl, true, false, List, [], ◌∷◌, ◌++◌, arith, get_or}
use posix_bsp_perf.Workers.{
  new_conn, new_task, ThreadPool, empty_queue, create, get_next_thread, run_task_all, send_msg,
  recv_msg,
}
use posix_bsp_perf.Workers.Fifo.{
  Call, sends, receives, History, step, run_calls, run_calls_fifo, Wakes, run_calls-Wakes,
}
use posix_bsp_perf.Workers.RoundRobin.{after, get_next_thread-create, queue_at, run_task_all-create}

abbrev three : ThreadPool
three = record {
  thread_cnt = 3;
  curr_index = 0;
  pool = empty_queue ∷ empty_queue ∷ empty_queue ∷ [];
}

abbrev calls : List Call
calls = sends true (new_conn 7) ∷ receives ∷ sends true (new_task 1) ∷ sends false (new_conn 8) ∷ []

abbrev start : History
start = record { q = empty_queue; received = [] }

calls_received : (run_calls calls start).received ≡ new_conn 7 ∷ []
unfolding run_calls step send_msg recv_msg
calls_received = refl

run_calls_fifo_run :
    (run_calls calls start).received ++ (run_calls calls start).q.queue
    ≡ new_conn 7 ∷ new_task 1 ∷ new_conn 8 ∷ []
run_calls_fifo_run = run_calls_fifo calls start

run_calls-Wakes_run : Wakes (run_calls calls start).q
unfolding step send_msg recv_msg
run_calls-Wakes_run =
    run_calls-Wakes calls start (λ some_msg. absurd (omega arith)) (omega arith, tt)

get_next_thread-create_example : (get_next_thread (after 7 three)).0 ≡ 1
unfolding create
get_next_thread-create_example = get_next_thread-create 3 7 three refl

run_task_all-create_run : queue_at (run_task_all 5 three) 2 ≡ new_task 5 ∷ []
unfolding create get_or
run_task_all-create_run = run_task_all-create 3 5 2 three refl
