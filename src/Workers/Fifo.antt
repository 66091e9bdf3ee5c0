-- ===== src/Workers/Fifo.antt =====
-- A thread queue under any interleaving of the threads that send and the one that receives.
use posix_bsp_perf.Prelude.{
  ◌<◌, ◌≡◌, sym, ap, ◌∙◌, Bool, true, false, List, [], ◌∷◌, ◌++◌, append_assoc, append-nil, length,
  arith,
}
use posix_bsp_perf.Workers.{QueueMsg, ThreadQueue, send_msg, recv_msg}

pub data Call : Type 0 where
  sends : Bool → QueueMsg → Call
  receives : Call

-- A queue and all that its receiver has taken from it.
pub record History : Type 0 where
  pub q : ThreadQueue
  pub received : List QueueMsg

unfoldable pub step : Call → History → History
unfolding send_msg recv_msg
step (sends written item) h = record h { q = send_msg written item h.q }
step receives h = record { q = (recv_msg [] h.q).1; received = h.received ++ (recv_msg [] h.q).0 }

unfoldable pub run_calls : List Call → History → History
run_calls [] h = h
run_calls (c ∷ cs) h = run_calls cs (step c h)

abbrev pub sent : List Call → List QueueMsg
sent [] = []
sent (sends written item ∷ cs) = item ∷ sent cs
sent (receives ∷ cs) = sent cs

-- After any calls in any order, what was received followed by what is queued is what there was
-- before, followed by the messages that were sent: none is lost, doubled or overtaken, also when
-- the eventfd could not be written.
pub run_calls_fifo :
    (cs : List Call) (h : History)
    → (run_calls cs h).received ++ (run_calls cs h).q.queue ≡ (h.received ++ h.q.queue) ++ sent cs
unfolding run_calls step send_msg recv_msg
run_calls_fifo [] h = sym (append-nil (h.received ++ h.q.queue))
run_calls_fifo (sends written item ∷ cs) h =
    run_calls_fifo cs (step (sends written item) h)
    ∙ ap (λ l. l ++ sent cs) (sym (append_assoc h.received h.q.queue (item ∷ [])))
    ∙ append_assoc (h.received ++ h.q.queue) (item ∷ []) (sent cs)
run_calls_fifo (receives ∷ cs) h =
    run_calls_fifo cs (step receives h)
    ∙ ap (λ l. l ++ sent cs) (append-nil (h.received ++ h.q.queue))

-- A queue that holds a message wakes its thread.
abbrev pub Wakes : ThreadQueue → Type 0
Wakes q = 0 < length q.queue → 0 < q.unread

-- A write to an eventfd fails only while its counter is full.
abbrev pub FailsFull : List Call → History → Type 0
FailsFull [] h = Unit
FailsFull (sends false item ∷ cs) h = (0 < h.q.unread) × FailsFull cs (step (sends false item) h)
FailsFull (sends true item ∷ cs) h = FailsFull cs (step (sends true item) h)
FailsFull (receives ∷ cs) h = FailsFull cs (step receives h)

-- No message is left without a wake-up: if the queue wakes its thread whenever it holds a message,
-- it still does so after any calls in any order, given that a write to the eventfd fails only while
-- its counter is full.
pub run_calls-Wakes :
    (cs : List Call) (h : History) → Wakes h.q → FailsFull cs h → Wakes (run_calls cs h).q
unfolding run_calls step send_msg recv_msg
run_calls-Wakes [] h w f = w
run_calls-Wakes (sends false item ∷ cs) h w f =
    run_calls-Wakes cs (step (sends false item) h) (λ some_msg. f.0) f.1
run_calls-Wakes (sends true item ∷ cs) h w f =
    run_calls-Wakes cs (step (sends true item) h) (λ some_msg. omega arith) f
run_calls-Wakes (receives ∷ cs) h w f =
    run_calls-Wakes cs (step receives h) (λ some_msg. absurd (omega arith)) f
