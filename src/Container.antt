-- ===== src/Container.antt =====
-- bsp/bsp_container/impl/ffmpeg: FFmpegDemuxer::readStreamPacket and FFmpegMuxer::writeStreamPacket, and
-- Recorder::muxerWriteStreamPacket of apps/data_recorder/ui/model/Recorder.cpp, which stands between an
-- encoder and the muxer. Of FFmpeg the models use that av_interleaved_write_frame hands its packet
-- over and leaves it blank, and that a packet grows to what is asked for. A value of type int64_t is
-- held as the value plus 2^63. The bounds of `int64_t` are not in the products of the time stamps: a
-- count stays below 2^31, as does a duration in ticks at a frame or more a second. `none` is a fault;
-- the result `false` stands for -1.
pub mod Stamps
pub mod Calls
mod Tests
use posix_bsp_perf.Prelude.{
  ℕ, ◌+◌, ◌-◌, ◌*◌, ◌^◌, Bool, true, false, not, ◌&&◌, Option, none, some, List, [], ◌∷◌, ◌++◌, Map,
  lookup, insert, ltb, if◌then◌else◌, length, take, drop, replicate,
}
use posix_bsp_perf.Buffers.{Buffer}

pub record StreamPacket : Type 0 where
  pub stream_index : ℕ
  pub pts : ℕ
  pub dts : ℕ
  pub pos : ℕ
  pub duration : ℕ
  pub pkt_data : Buffer
  pub useful_pkt_size : ℕ

-- What av_read_frame gives.
pub record AvPacket : Type 0 where
  pub stream_index : ℕ
  pub pts : ℕ
  pub dts : ℕ
  pub pos : ℕ
  pub duration : ℕ
  pub bytes : Buffer

-- The vector is made longer when it has to be.
unfoldable pub at_least : ℕ → Buffer → Buffer
at_least n data_ = if ltb (length data_) n then data_ ++ replicate (n - length data_) 0 else data_

-- And filled from its start.
abbrev pub filled : Buffer → Buffer → Buffer
filled bytes data_ = bytes ++ drop (length bytes) (at_least (length bytes) data_)

unfoldable pub read_stream_packet : AvPacket → StreamPacket → StreamPacket
unfolding at_least
read_stream_packet av p = record {
  stream_index = av.stream_index;
  pts = av.pts;
  dts = av.dts;
  pos = av.pos;
  duration = av.duration;
  pkt_data = filled av.bytes p.pkt_data;
  useful_pkt_size = length av.bytes;
}

-- A packet of `pkt_len` bytes from the encoder, as the recorder hands it on.
unfoldable pub take_encoded : Buffer → ℕ → StreamPacket → Option StreamPacket
unfolding at_least
take_encoded encode_pkt pkt_len p =
    if ltb (length encode_pkt) pkt_len
    then none
    else some (record p {
      pkt_data = filled (take pkt_len encode_pkt) p.pkt_data;
      useful_pkt_size = pkt_len;
    })

pub record Written : Type 0 where
  pub stream_index : ℕ
  pub pts : ℕ
  pub dts : ℕ
  pub bytes : Buffer

-- A muxer whose container has been opened. `packet` is `none` for a null pointer, and else the bytes that
-- belong to the packet. `written` is what FFmpeg has been given.
pub record Muxer : Type 0 where
  pub ts_recreate : Bool
  pub header_written : Bool
  pub packet : Option Buffer
  pub stream_frames_count : Map ℕ
  pub written : List Written

-- How the calls of FFmpeg turn out; `memory` tells whether av_packet_alloc, av_new_packet and av_grow_packet
-- get what they ask for.
pub record Outcome : Type 0 where
  pub memory : Bool
  pub opened : Bool
  pub header : Bool
  pub frame : Bool

-- `duration i` is the length of a frame of stream `i` in ticks.
module _ (stale : ℕ → Buffer) (duration : ℕ → ℕ) where
  unfoldable pub recreate_pts : ℕ → Muxer → ℕ
  recreate_pts i m = elim (lookup i m.stream_frames_count) [
    | none ↦ 2 ^ 63 - 1
    | some n ↦ 2 ^ 63 + n * duration i
  ]

  unfoldable pub recreate_dts : ℕ → Muxer → ℕ
  recreate_dts i m = elim (lookup i m.stream_frames_count) [
    | none ↦ 2 ^ 63 - 1
    | some n ↦ 2 ^ 63 + n * duration i - duration i
  ]

  -- The packet, made if there is none and grown if it is too small.
  unfoldable pub packet_for : ℕ → Option Buffer → Buffer
  packet_for n none = stale n
  packet_for n (some bytes) =
      if ltb (length bytes) n then bytes ++ stale (n - length bytes) else bytes

  -- FFmpeg is asked for memory.
  abbrev pub is_short : ℕ → Option Buffer → Bool
  is_short n none = true
  is_short n (some bytes) = ltb (length bytes) n

  abbrev pub count_of : ℕ → Map ℕ → ℕ
  count_of i m = elim (lookup i m) [ none ↦ 0 | some n ↦ n ]

  -- What FFmpeg is given for a packet.
  unfoldable pub frame_for : StreamPacket → Muxer → Written
  unfolding recreate_pts recreate_dts packet_for
  frame_for p m =
      let i = p.stream_index in
      let n = p.useful_pkt_size in
      record {
        stream_index = i;
        pts = if m.ts_recreate then recreate_pts i m else p.pts;
        dts = if m.ts_recreate then recreate_dts i m else p.dts;
        bytes = take n p.pkt_data ++ drop n (packet_for n m.packet);
      }

  -- The muxer when the frame is taken.
  abbrev pub passed_on : StreamPacket → Muxer → Muxer
  passed_on p m = record m {
    packet = some [];
    written = m.written ++ frame_for p m ∷ [];
    stream_frames_count =
        insert p.stream_index (count_of p.stream_index m.stream_frames_count + 1)
          m.stream_frames_count;
  }

  -- From the header on. The results of the calls for memory are not looked at, and the count is an `int`.
  unfoldable pub write_frame : Bool → Bool → StreamPacket → Muxer → Option (Bool × Muxer)
  unfolding frame_for
  write_frame memory frame p m =
      if ltb (length p.pkt_data) p.useful_pkt_size
      then none
      else if not memory && is_short p.useful_pkt_size m.packet
      then none
      else if not frame
      then some (false, record m { packet = some [] })
      else if ltb (count_of p.stream_index m.stream_frames_count + 1) 2147483648
      then some (true, passed_on p m)
      else none

  unfoldable pub write_stream_packet : Outcome → StreamPacket → Muxer → Option (Bool × Muxer)
  unfolding write_frame
  write_stream_packet o p m =
      if m.header_written
      then write_frame o.memory o.frame p m
      else if o.opened && o.header
      then write_frame o.memory o.frame p (record m { header_written = true })
      else some (false, m)
