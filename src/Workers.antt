-- ===== src/Workers.antt =====
-- bsp/bsp_sockets/impl/ThreadQueue.hpp, ThreadPool.cpp and the messages of MsgHead.hpp: the queues
-- by which the accepting thread gives work to the loops of the other threads. The mutex makes each
-- call one step. A task with its arguments is a handle.
pub mod Fifo
pub mod RoundRobin
mod Tests
use posix_bsp_perf.Prelude.{
  ℕ, zero, suc, ◌+◌, Bool, true, false, Option, none, some, List, [], ◌∷◌, ◌++◌, get_or, set,
  replicate, ltb, leb, ◌||◌, if◌then◌else◌,
}

pub data QueueMsg : Type 0 where
  new_conn : ℕ → QueueMsg
  stop_thd : QueueMsg
  new_task : ℕ → QueueMsg

-- `unread` counts the successful writes to the eventfd since it was read; the loop of the thread
-- wakes up while it is not 0.
pub record ThreadQueue : Type 0 where
  pub queue : List QueueMsg
  pub unread : ℕ

abbrev pub empty_queue : ThreadQueue
empty_queue = record { queue = []; unread = 0 }

-- `written` says whether `::write` succeeded; a failure is logged only.
unfoldable pub send_msg : Bool → QueueMsg → ThreadQueue → ThreadQueue
send_msg written item q = record {
  queue = q.queue ++ item ∷ [];
  unread = if written then q.unread + 1 else q.unread;
}

-- The queue is swapped with the caller's, which comes back in front.
unfoldable pub recv_msg : List QueueMsg → ThreadQueue → List QueueMsg × ThreadQueue
recv_msg tmp_queue q = (q.queue, record { queue = tmp_queue; unread = 0 })

pub record ThreadPool : Type 0 where
  pub thread_cnt : ℕ
  pub curr_index : ℕ
  pub pool : List ThreadQueue

-- `none` is the exception for a bad count. `thread_cnt` is the bits of an `int`, so that a negative
-- count is a large one.
unfoldable pub create : ℕ → Option ThreadPool
create thread_cnt =
    if leb thread_cnt 0 || ltb 30 thread_cnt
    then none
    else some (record {
      thread_cnt = thread_cnt;
      curr_index = 0;
      pool = replicate thread_cnt empty_queue;
    })

-- The index of the queue that is given out, and the pool after it.
unfoldable pub get_next_thread : ThreadPool → ℕ × ThreadPool
get_next_thread p =
    let i = if leb p.thread_cnt p.curr_index then 0 else p.curr_index in
    (i, record p { curr_index = i + 1 })

unfoldable pub send_to : Bool → ℕ → QueueMsg → ThreadPool → ThreadPool
unfolding send_msg
send_to written i msg p = record p {
  pool = set p.pool i (send_msg written msg (get_or p.pool i empty_queue));
}

-- `runTask(thd_index, task, args)`
unfoldable pub run_task_on : Bool → ℕ → ℕ → ThreadPool → ThreadPool
unfolding send_to
run_task_on written thd_index task p = send_to written thd_index (new_task task) p

-- The loop of `runTask(task, args)` over the threads from `i` on.
unfoldable pub run_task_from : ℕ → ℕ → ℕ → ThreadPool → ThreadPool
unfolding run_task_on
run_task_from zero i task p = p
run_task_from (suc left) i task p = run_task_from left (suc i) task (run_task_on true i task p)

-- `runTask(task, args)`, when no write fails
unfoldable pub run_task_all : ℕ → ThreadPool → ThreadPool
unfolding run_task_from
run_task_all task p = run_task_from p.thread_cnt 0 task p
