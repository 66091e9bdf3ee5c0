-- ===== src/Buffers.antt =====
-- bsp/bsp_sockets/impl/IOBuffer.hpp and IOBuffer.cpp: queues of byte buffers between a socket and
-- its owner. The mutex makes each call one step, so a queue is a list, its front first.
pub mod Effects
use posix_bsp_perf.Prelude.{
  ℕ, Bool, true, false, Option, none, some, List, [], ◌∷◌, ◌++◌, ltb, leb, ◌==◌, ◌&&◌,
  if◌then◌else◌, length,
}
use posix_bsp_perf.Syscall.{Attempt, eintr, eagain, error, done, retry}

abbrev pub Buffer : Type 0
Buffer = List ℕ

abbrev pub IoBufferQueue : Type 0
IoBufferQueue = List Buffer

abbrev pub max_buffer_num : ℕ
max_buffer_num = 256

abbrev pub get_buffers_count : IoBufferQueue → ℕ
get_buffers_count q = length q

abbrev pub is_full : IoBufferQueue → Bool
is_full q = leb max_buffer_num (length q)

abbrev pub is_empty : IoBufferQueue → Bool
is_empty [] = true
is_empty (b ∷ q) = false

abbrev pub append_buffer : Buffer → IoBufferQueue → IoBufferQueue
append_buffer b q = q ++ b ∷ []

-- `pop` of an empty queue is undefined in C++; no caller does it.
abbrev pub pop_buffer : IoBufferQueue → IoBufferQueue
pop_buffer [] = []
pop_buffer (b ∷ q) = q

-- What a call returns: -1, or a count.
pub data Ret : Type 0 where
  failed : Ret
  returned : ℕ → Ret

-- A read of `n` bytes that were announced: kept if all came, dropped if fewer did.
unfoldable pub keep_read : IoBufferQueue → ℕ → Buffer → Ret × IoBufferQueue
keep_read q n bytes = (
  returned (length bytes),
  if ltb 0 (length bytes) && (length bytes == n) then append_buffer bytes q else q,
)

-- `InputBufferQueue::readData`. `announced` is the answer of `ioctl(FIONREAD)`, `none` for -1, and
-- `reads` are those of `::read`. The result is `none` while the reads are interrupted.
unfoldable pub read_data :
    IoBufferQueue → Option ℕ → List (Attempt Buffer) → Option (Ret × IoBufferQueue)
unfolding keep_read retry
read_data q announced reads = if is_full q then some (failed, q) else elim announced [
  | none ↦ some (failed, q)
  | some n ↦ elim (retry reads) [
    | none ↦ none
    | some (done bytes) ↦ some (keep_read q n bytes)
    | some other ↦ some (failed, q)
  ]
]

-- `OutputBufferQueue::sendData`
abbrev pub send_buffer : IoBufferQueue → Buffer → IoBufferQueue
send_buffer q b = append_buffer b q

-- `OutputBufferQueue::writeFd`: the front buffer goes out with one write, whatever its count.
unfoldable pub write_fd : IoBufferQueue → List (Attempt ℕ) → Option (Ret × IoBufferQueue)
unfolding retry
write_fd [] writes = some (returned 0, [])
write_fd (b ∷ q) writes = elim (retry writes) [
  | none ↦ none
  | some (done n) ↦ some (returned n, q)
  | some other ↦ some (failed, b ∷ q)
]
