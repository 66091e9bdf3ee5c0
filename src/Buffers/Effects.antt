-- ===== src/Buffers/Effects.antt =====
-- What the calls of IOBuffer.cpp do to the queue, on every answer of the kernel.
use posix_bsp_perf.Prelude.{
  ℕ, ◌+◌, ◌≤◌, ◌<◌, ◌≡◌, Option, some, List, [], ◌∷◌, ◌++◌, arith, length, length-append,
}
use posix_bsp_perf.Syscall.{Attempt, done, interruptions, retry-interruptions}
use posix_bsp_perf.Buffers.{
  Buffer, IoBufferQueue, max_buffer_num, Ret, returned, read_data, write_fd,
}

-- Reading never takes a queue past its limit of 256 buffers.
pub read_data_bounded :
    (q : IoBufferQueue) (announced : Option ℕ) (reads : List (Attempt Buffer)) (r : Ret)
    (q' : IoBufferQueue)
    → length q ≤ max_buffer_num
    → read_data q announced reads ≡ some (r, q')
    → length q' ≤ max_buffer_num
unfolding read_data
read_data_bounded q announced reads r q' h e = grind (arith, length-append)

-- A read that brings every announced byte, at least one, after any number of interruptions, puts them behind the
-- buffers of a queue with room.
pub read_data_appends :
    (q : IoBufferQueue) (k : ℕ) (bytes : Buffer) (later : List (Attempt Buffer))
    → length q < max_buffer_num
    → 0 < length bytes
    → read_data q (some (length bytes)) (interruptions k (done bytes ∷ later))
      ≡ some (returned (length bytes), q ++ bytes ∷ [])
unfolding read_data
read_data_appends q k bytes later h some_bytes =
    ground (arith, retry-interruptions k (done bytes ∷ later))

-- A read that brings fewer bytes than were announced reports their count and drops them.
pub read_data_short :
    (q : IoBufferQueue) (n : ℕ) (bytes : Buffer) (later : List (Attempt Buffer))
    → length q < max_buffer_num
    → length bytes < n
    → read_data q (some n) (done bytes ∷ later) ≡ some (returned (length bytes), q)
unfolding read_data
read_data_short q n bytes later h k = ground arith

abbrev pub bytes_queued : IoBufferQueue → ℕ
bytes_queued [] = 0
bytes_queued (b ∷ q) = length b + bytes_queued q

-- A write that takes only part of the front buffer, after any number of interruptions, takes the
-- whole buffer off the queue: more bytes leave the queue than were written.
pub write_fd_partial :
    (b : Buffer) (q : IoBufferQueue) (k n : ℕ) (later : List (Attempt ℕ))
    → n < length b
    → (write_fd (b ∷ q) (interruptions k (done n ∷ later)) ≡ some (returned n, q))
      × (bytes_queued q + n < bytes_queued (b ∷ q))
unfolding write_fd
write_fd_partial b q k n later h =
    (ground (arith, retry-interruptions k (done n ∷ later)), omega arith)
