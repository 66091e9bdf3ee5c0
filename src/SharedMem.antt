-- ===== src/SharedMem.antt =====
-- midware/zeromq_ipc: SharedMemPublisher and SharedMemSubscriber, two processes that share a memory
-- of slots. The memory is the list of its bytes, and slot `i` starts at `i` times the buffer size, as
-- in `m_shm_slots`. `none` is an access outside the memory. ZeroMQ carries the messages: what is
-- published on the topic is appended to `published`.
pub mod Slots
pub mod Ring
mod Tests
use posix_bsp_perf.Prelude.{
  ℕ, ◌+◌, ◌*◌, ◌%◌, Bool, true, false, not, ◌&&◌, Option, none, some, List, [], ◌∷◌, ◌++◌, ltb, leb,
  ◌==◌, if◌then◌else◌, length, take, drop, replicate, min,
}
use posix_bsp_perf.Buffers.{Buffer}

abbrev pub max_buffer_slots_count : ℕ
max_buffer_slots_count = 32

pub record SharedMemPublisher : Type 0 where
  pub slots : ℕ
  pub single_buffer_size : ℕ
  pub current_slot_index : ℕ
  pub memory : Buffer
  pub published : List Buffer

-- `initSharedMemory`: the three calls succeed or not, and the new memory is zeroed.
unfoldable pub init_shared_memory : Bool → Bool → Bool → ℕ → ℕ → Option SharedMemPublisher
init_shared_memory opened truncated mapped slots size =
    if not (opened && (truncated && mapped))
    then none
    else some (record {
      slots = slots;
      single_buffer_size = size;
      current_slot_index = 0;
      memory = replicate (size * slots) 0;
      published = [];
    })

-- The constructor. `none` is an exception.
unfoldable pub create_publisher : Bool → Bool → Bool → ℕ → ℕ → Option SharedMemPublisher
unfolding init_shared_memory
create_publisher opened truncated mapped slots size =
    if ltb max_buffer_slots_count slots
    then none
    else init_shared_memory opened truncated mapped slots size

-- `none` is the division by zero of a publisher without slots.
unfoldable pub get_free_slot_index : SharedMemPublisher → Option (ℕ × SharedMemPublisher)
get_free_slot_index p =
    if p.slots == 0
    then none
    else some (
      p.current_slot_index,
      record p { current_slot_index = (p.current_slot_index + 1) % p.slots },
    )

-- `memcpy` to the bytes from `at` on.
unfoldable pub write_bytes : Buffer → ℕ → Buffer → Option Buffer
write_bytes memory at bytes =
    if leb (at + length bytes) (length memory)
    then some (take at memory ++ (bytes ++ drop (at + length bytes) memory))
    else none

-- `memcpy` of `n` bytes from `at` on.
unfoldable pub read_bytes : Buffer → ℕ → ℕ → Option Buffer
read_bytes memory at n =
    if leb (at + n) (length memory) then some (take n (drop at memory)) else none

-- The result is `true` for 0 and `false` for -1.
unfoldable pub publish_data :
    Buffer → Buffer → ℕ → SharedMemPublisher → Option (Bool × SharedMemPublisher)
unfolding write_bytes
publish_data msg shm_data slot_index p =
    if leb p.slots slot_index
    then some (false, p)
    else if ltb p.single_buffer_size (length shm_data)
    then some (false, p)
    else elim (write_bytes p.memory (slot_index * p.single_buffer_size) shm_data) [
      | none ↦ none
      | some memory ↦ some (true, record p { memory = memory; published = p.published ++ msg ∷ [] })
    ]

pub record SharedMemSubscriber : Type 0 where
  pub slots : ℕ
  pub single_buffer_size : ℕ

-- The result is `none` for -1; the outer `none` is a fault. The memory is what the publisher wrote.
unfoldable pub receive_shared_mem_data :
    Buffer → ℕ → ℕ → SharedMemSubscriber → Option (Option Buffer)
unfolding read_bytes
receive_shared_mem_data memory data_size slot_index s =
    if leb s.slots slot_index
    then some none
    else elim (read_bytes memory (slot_index * s.single_buffer_size)
        (min s.single_buffer_size data_size)) [ none ↦ none | some bytes ↦ some (some bytes) ]
