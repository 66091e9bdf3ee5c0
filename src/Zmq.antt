-- ===== src/Zmq.antt =====
-- midware/zeromq_ipc/zmqPublisher.cpp and zmqSubscriber.cpp. What ZeroMQ does with a message is to carry
-- its parts, in order, each with a flag that says whether more parts follow: the socket is the list of
-- the parts that have not been received. `none` is a call that waits for a part.
pub mod Parts
mod Tests
use posix_bsp_perf.Prelude.{
  ℕ, zero, suc, ◌+◌, ◌-◌, Bool, true, false, Option, none, some, List, [], ◌∷◌, ◌++◌, ltb,
  if◌then◌else◌, length, take, drop, min,
}
use posix_bsp_perf.Buffers.{Buffer}

-- `zmq::message_t`
pub record Part : Type 0 where
  pub bytes : Buffer
  pub more : Bool

abbrev pub Socket : Type 0
Socket = List Part

-- `sendData(data, size, more)`
unfoldable pub send_data : Buffer → Bool → Socket → Socket
send_data bytes more socket = socket ++ record { bytes = bytes; more = more } ∷ []

unfoldable pub send_data_more : Buffer → Socket → Socket
unfolding send_data
send_data_more bytes socket = send_data bytes true socket

unfoldable pub send_data_last : Buffer → Socket → Socket
unfolding send_data
send_data_last bytes socket = send_data bytes false socket

-- `std::memcpy(buffer + at, bytes)`, where `bytes` of the calls below is taken to be no more than the size
-- of the buffer.
abbrev pub copy_at : Buffer → ℕ → Buffer → Buffer
copy_at buffer at bytes = take at buffer ++ (bytes ++ drop (at + length bytes) buffer)

-- The number that a call returns, the user's buffer behind it, and the socket.
pub record Received : Type 0 where
  pub size : ℕ
  pub buffer : Buffer
  pub socket : Socket

-- The loop of `receiveDataMore`, with the flag of the last part.
unfoldable pub receive_rest : Bool → Buffer → ℕ → ℕ → Socket → Option Received
receive_rest false buffer bytes index socket =
    some (record { size = index; buffer = buffer; socket = socket })
receive_rest true buffer bytes index [] = none
receive_rest true buffer bytes index (p ∷ socket) =
    let rest =
      receive_rest p.more (copy_at buffer index p.bytes) bytes (index + length p.bytes) socket in
    if ltb (bytes - index) (length p.bytes)
    then some (record { size = 0; buffer = buffer; socket = socket })
    else rest

unfoldable pub receive_data_more : Buffer → ℕ → Socket → Option Received
unfolding receive_rest
receive_data_more buffer bytes [] = none
receive_data_more buffer bytes (p ∷ socket) =
    if ltb bytes (length p.bytes)
    then some (record { size = 0; buffer = buffer; socket = socket })
    else receive_rest p.more (copy_at buffer 0 p.bytes) bytes (length p.bytes) socket

-- The overload that fills a vector: what it holds in the end, and the socket.
unfoldable pub receive_vector_rest : Bool → Buffer → Socket → Option (Buffer × Socket)
receive_vector_rest false vector socket = some (vector, socket)
receive_vector_rest true vector [] = none
receive_vector_rest true vector (p ∷ socket) = receive_vector_rest p.more (vector ++ p.bytes) socket

unfoldable pub receive_vector_more : Socket → Option (Buffer × Socket)
unfolding receive_vector_rest
receive_vector_more [] = none
receive_vector_more (p ∷ socket) = receive_vector_rest p.more p.bytes socket

-- `receiveData(data)`: one part, into a vector.
unfoldable pub receive_vector : Socket → Option (Buffer × Socket)
receive_vector [] = none
receive_vector (p ∷ socket) = some (p.bytes, socket)

-- `receiveData(buffer, bytes)`: one part, as much of it as there is room for.
unfoldable pub receive_data : Buffer → ℕ → Socket → Option Received
receive_data buffer bytes [] = none
receive_data buffer bytes (p ∷ socket) =
    let n = min (length p.bytes) bytes in
    some (record { size = n; buffer = copy_at buffer 0 (take n p.bytes); socket = socket })
