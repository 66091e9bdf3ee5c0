-- ===== src/Camera/Threads.antt =====
-- VideoDecHelper.cpp and CameraClient.cpp: the thread that receives and the thread that decodes, one
-- step of either at a time, each of which the code does under a lock or on a buffer of its own. Every
-- buffer is in the pool, in the queue, or with one of the threads.
use posix_bsp_perf.Prelude.{
  ℕ, ◌+◌, ◌^◌, ◌≤◌, ◌<◌, ◌≡◌, Option, none, some, List, [], ltb, if◌then◌else◌, length,
}
use posix_bsp_perf.Buffers.{Buffer}
use posix_bsp_perf.Camera.{
  RtpBuffer, VideoDecHelper, free_buffer_limit, reserved_encode_pkt_num, get_rtp_video_buffer,
  send_to_decoder, take_packet, decode_packet,
}
use posix_bsp_perf.Camera.Sorted.{Ordered, named, times}

pub record Threads : Type 0 where
  pub helper : VideoDecHelper
  pub receiver : Option RtpBuffer
  pub decoder : Option RtpBuffer

abbrev pub start : Threads
start = record {
  helper = record { free_buffers = []; encode_pkts = []; decoded = []; next_id = 0 };
  receiver = none;
  decoder = none;
}

-- `fill` is all that the receiver does to its buffer; `lose` is a `continue`.
pub data Step (sort_buffers : List RtpBuffer → List RtpBuffer) (s t : Threads) : Type 0 where
  get :
      (stale : Buffer) (min_size : ℕ)
      → s.receiver ≡ none
      → min_size < 2 ^ 63
      → t ≡ record s {
        receiver = some (get_rtp_video_buffer stale min_size s.helper).0;
        helper = (get_rtp_video_buffer stale min_size s.helper).1;
      }
      → Step sort_buffers s t
  fill :
      (b c : RtpBuffer)
      → s.receiver ≡ some b
      → c.id ≡ b.id
      → c.buffer_size ≡ b.buffer_size
      → t ≡ record s { receiver = some c }
      → Step sort_buffers s t
  lose : t ≡ record s { receiver = none } → Step sort_buffers s t
  send :
      (b : RtpBuffer)
      → s.receiver ≡ some b
      → t ≡ record s { receiver = none; helper = send_to_decoder sort_buffers b s.helper }
      → Step sort_buffers s t
  take_one :
      s.decoder ≡ none
      → t ≡ record s { decoder = (take_packet s.helper).0; helper = (take_packet s.helper).1 }
      → Step sort_buffers s t
  decode_one :
      (b : RtpBuffer)
      → s.decoder ≡ some b
      → t ≡ record s { decoder = none; helper = decode_packet sort_buffers b s.helper }
      → Step sort_buffers s t

pub data Reach (sort_buffers : List RtpBuffer → List RtpBuffer) : Threads → Type 0 where
  here : Reach sort_buffers start
  next : {s t : Threads} → Reach sort_buffers s → Step sort_buffers s t → Reach sort_buffers t

abbrev pub held : ℕ → Option RtpBuffer → ℕ
held i none = 0
held i (some b) = named i b

-- How often the buffer `i` is anywhere.
abbrev pub owners : ℕ → Threads → ℕ
owners i s =
    times i s.helper.free_buffers
    + times i s.helper.encode_pkts
    + held i s.receiver
    + held i s.decoder

pub record IsSound (s : Threads) : Type 0 where
  pub ordered : Ordered s.helper.free_buffers
  pub short : length s.helper.free_buffers ≤ free_buffer_limit
  pub queue_short : length s.helper.encode_pkts ≤ reserved_encode_pkt_num
  pub alone : (i : ℕ) → owners i s ≤ (if ltb i s.helper.next_id then 1 else 0)
