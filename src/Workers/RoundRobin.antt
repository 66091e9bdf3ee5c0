-- ===== src/Workers/RoundRobin.antt =====
-- The order in which ThreadPool gives out its threads.
use native.Mathlib.Nat.{suc-mod, mod-lt, zero-mod}
use posix_bsp_perf.Prelude.{
  ℕ, zero, suc, ◌+◌, ◌%◌, ◌≤◌, ◌<◌, ◌≡◌, refl, sym, ap, ◌∙◌, true, some, List, [], ◌∷◌, ◌++◌,
  length, get_or, ltb, leb, if◌then◌else◌, arith, length-set, get_or-set, length-replicate, if_elim,
  wrap, subst, OnSome, ◌||◌, ◌&&◌,
}
use posix_bsp_perf.Workers.{
  QueueMsg, new_task, ThreadPool, empty_queue, create, get_next_thread, send_msg, send_to,
  run_task_on, run_task_from, run_task_all,
}

unfoldable pub after : ℕ → ThreadPool → ThreadPool
unfolding get_next_thread
after zero p = p
after (suc k) p = (get_next_thread (after k p)).1

next_index :
    (p : ThreadPool)
    → (get_next_thread (get_next_thread p).1).0
      ≡ (if leb p.thread_cnt ((get_next_thread p).0 + 1) then 0 else (get_next_thread p).0 + 1)
unfolding get_next_thread
next_index p = refl

kept_count : (p : ThreadPool) → (get_next_thread p).1.thread_cnt ≡ p.thread_cnt
unfolding get_next_thread
kept_count p = refl

first_index : (p : ThreadPool) → p.curr_index ≡ 0 → (get_next_thread p).0 ≡ 0
unfolding get_next_thread
first_index p f = ground arith

after_facts :
    (n k : ℕ) (p : ThreadPool)
    → 0 < n
    → p.thread_cnt ≡ n
    → p.curr_index ≡ 0
    → ((after k p).thread_cnt ≡ n) × ((get_next_thread (after k p)).0 ≡ k % n)
unfolding after
after_facts n zero p pos e f = (e, first_index p f ∙ sym (zero-mod n))
after_facts n (suc k) p pos e f =
    let (count, index) = after_facts n k p pos e f in
    (
      kept_count (after k p) ∙ count,
      next_index (after k p)
          ∙ ap
              (λ m.
                if leb m ((get_next_thread (after k p)).0 + 1)
                then 0
                else (get_next_thread (after k p)).0 + 1)
              count
          ∙ ap (λ r. if leb n (r + 1) then 0 else r + 1) index
          ∙ wrap n (k % n) (mod-lt k pos)
          ∙ sym (suc-mod k n),
    )

abbrev Fits : ℕ → ThreadPool → Type 0
Fits n p = (0 < n) × (n ≤ 30) × (p.thread_cnt ≡ n) × (p.curr_index ≡ 0) × (length p.pool ≡ n)

create-Fits : (n : ℕ) → OnSome (Fits n) (create n)
unfolding create
create-Fits n =
    if_elim (OnSome (Fits n)) (leb n 0 || ltb 30 n) (λ e. tt)
      λ e. (ground arith, ground arith, refl, refl, length-replicate n empty_queue)

-- The threads are given out in turn: of a new pool of `n` threads, the call that comes after `k`
-- others gives out the thread of index `k % n`.
pub get_next_thread-create :
    (n k : ℕ) (p : ThreadPool) → create n ≡ some p → (get_next_thread (after k p)).0 ≡ k % n
get_next_thread-create n k p e =
    let (pos, low, count, index, size) = subst (OnSome (Fits n)) e (create-Fits n) in
    (after_facts n k p pos count index).1

abbrev pub queue_at : ThreadPool → ℕ → List QueueMsg
queue_at p i = (get_or p.pool i empty_queue).queue

run_task_from_facts :
    (left i task : ℕ) (p : ThreadPool) (j : ℕ)
    → i + left ≤ length p.pool
    → (queue_at (run_task_from left i task p) j)
      ≡ (if leb i j && ltb j (i + left) then queue_at p j ++ new_task task ∷ [] else queue_at p j)
unfolding run_task_from run_task_on send_to send_msg
run_task_from_facts zero i task p j h = ground arith
run_task_from_facts (suc left) i task p j h =
    let sent = send_msg true (new_task task) (get_or p.pool i empty_queue) in
    ground (
      arith,
      run_task_from_facts left (suc i) task (run_task_on true i task p) j
          (omega (arith, length-set p.pool i sent)),
      get_or-set p.pool i j sent empty_queue (omega arith),
    )

-- A task for the whole pool is queued once for every thread of a new pool, and nothing else is
-- queued.
pub run_task_all-create :
    (n task j : ℕ) (p : ThreadPool)
    → create n ≡ some p
    → queue_at (run_task_all task p) j
      ≡ (if ltb j n then queue_at p j ++ new_task task ∷ [] else queue_at p j)
unfolding run_task_all
run_task_all-create n task j p e =
    let (pos, low, count, index, size) = subst (OnSome (Fits n)) e (create-Fits n) in
    ground (arith, count, run_task_from_facts p.thread_cnt 0 task p j (omega (arith, count, size)))
