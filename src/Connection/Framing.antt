-- ===== src/Connection/Framing.antt =====
-- How TcpConnection::handleRead reads the front buffer as a message.
use posix_bsp_perf.Prelude.{
  ℕ, ◌+◌, ◌^◌, ◌≤◌, ◌<◌, ◌≡◌, true, some, ◌++◌, arith, ltb, if◌then◌else◌, length, length-append,
  length-drop, drop,
}
use posix_bsp_perf.Message.{
  MsgHead, msg_length_limit, sizeof_msg_head, msg_head_length, read_head, packet,
}
use posix_bsp_perf.Message.Codec.{read_head-packet, drop-packet, length-packet}
use posix_bsp_perf.Buffers.{Buffer}
use posix_bsp_perf.Dispatcher.{exist}
use posix_bsp_perf.Connection.{Server, Verdict, half, deliver, inspect}

-- The verdict on a buffer whose head is known.
inspect_head :
    (s : Server) (buffer : Buffer) (head : MsgHead)
    → read_head buffer ≡ some head
    → head.length ≤ msg_length_limit
    → inspect (some s) buffer ≡ (
        if ltb (length buffer) (msg_head_length + head.length)
        then half
        else if exist s.dispatcher head.cmd_id
        then deliver head.cmd_id (drop sizeof_msg_head buffer)
        else Verdict.unknown_cmd)
unfolding inspect
inspect_head s buffer head e h = rw (e, inspect) (ground arith)

module _ (s : Server) (padding cmd_id : ℕ) (bytes : Buffer) (fits : cmd_id < 2 ^ 64)
    (short : length bytes ≤ msg_length_limit) where
  -- A buffer with a packet of a registered command in front, within the size limits, delivers the
  -- packet's data. Whatever stands behind the packet, such as the next packet that the same read
  -- brought, is delivered as more data of the first.
  pub inspect-packet :
      (rest : Buffer)
      → exist s.dispatcher cmd_id ≡ true
      → inspect (some s) (packet padding cmd_id bytes ++ rest) ≡ deliver cmd_id (bytes ++ rest)
  inspect-packet rest known =
      rw (inspect_head s _ _ (read_head-packet padding cmd_id bytes rest fits (omega arith)) short)
        (ground (
          arith,
          length-append (packet padding cmd_id bytes) rest,
          length-packet padding cmd_id bytes,
          drop-packet padding cmd_id bytes rest,
        ))

readable :
    (buffer : Buffer) (head : MsgHead)
    → read_head buffer ≡ some head
    → sizeof_msg_head ≤ length buffer
unfolding read_head
readable buffer head e = ground arith

-- A buffer whose length lies between the two sizes that the code uses for a head, 12 and 16 bytes
-- more than the announced data, passes as complete: of a registered command fewer bytes are
-- delivered than the head announces.
pub inspect_truncates :
    (s : Server) (buffer : Buffer) (head : MsgHead)
    → read_head buffer ≡ some head
    → head.length ≤ msg_length_limit
    → exist s.dispatcher head.cmd_id ≡ true
    → msg_head_length + head.length ≤ length buffer
    → length buffer < sizeof_msg_head + head.length
    → (bytes : Buffer) × (inspect (some s) buffer ≡ deliver head.cmd_id bytes)
      × (length bytes < head.length)
inspect_truncates s buffer head e h known enough cut = (
  drop sizeof_msg_head buffer,
  rw (inspect_head s buffer head e h) (ground arith),
  omega (arith, length-drop sizeof_msg_head buffer, readable buffer head e),
)
