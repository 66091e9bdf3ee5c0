-- ===== src/Camera/Tests.antt =====
-- Runs of the camera's two threads, with an insertion sort for `std::sort`.
use mathlib.Core.List.Perm
use mathlib.Core.List.{Perm}
use posix_bsp_perf.Prelude.{
  ℕ, ◌≤◌, ◌<◌, ◌≡◌, ◌⊎◌, refl, false, none, some, List, [], ◌∷◌, leb, if◌then◌else◌, if_elim,
  length, replicate, All, All-map, each, arith,
}
use posix_bsp_perf.Buffers.{Buffer}
use posix_bsp_perf.Rtp.{RtpHeader}
use posix_bsp_perf.Rtp.Fields.{print_header}
use posix_bsp_perf.Camera.{
  RtpBuffer, CameraClient, no_payload, get_rtp_video_buffer, reserved_encode_pkt_num, decoder_round,
}
use posix_bsp_perf.Camera.Sorted.{Ordered, Sorts, times}
use posix_bsp_perf.Camera.Threads.{Threads, start, Reach, here, next, get, held}
use posix_bsp_perf.Camera.Owners.{Reach-owners, Reach-get_rtp_video_buffer}
use posix_bsp_perf.Camera.Packets.{RtpMessage, IsPacket}
use posix_bsp_perf.Camera.Stream.{receives, decodes, publish_all, run_turns, run_turns-publish_all}
use posix_bsp_perf.SharedMem.{SharedMemPublisher, receive_shared_mem_data}
use posix_bsp_perf.SharedMem.Slots.{mirror}
use posix_bsp_perf.Camera.Frames.{
  ImageBuffer, CameraConfig, CameraSensorMsg, need_pixel_converter, fill_camera_sensor_msg,
  get_decoded_frame, consumer_round,
}
use posix_bsp_perf.Camera.Latest.{
  latest, decoder_callbacks, decoder_callbacks-latest, consumer_round-receive_shared_mem_data,
}

put : RtpBuffer → List RtpBuffer → List RtpBuffer
put b [] = b ∷ []
put b (c ∷ cs) =
    let rest = put b cs in if leb b.buffer_size c.buffer_size then b ∷ c ∷ cs else c ∷ rest

arrange : List RtpBuffer → List RtpBuffer
unfolding put
arrange [] = []
arrange (b ∷ bs) = put b (arrange bs)

put-Perm : (b : RtpBuffer) (cs : List RtpBuffer) → Perm (put b cs) (b ∷ cs)
unfolding put
put-Perm b [] = Perm.refl (b ∷ [])
put-Perm b (c ∷ cs) =
    let rest = put-Perm b cs in
    if_elim (λ r. Perm r (b ∷ c ∷ cs)) (leb b.buffer_size c.buffer_size)
      (λ e. Perm.refl (b ∷ c ∷ cs)) (λ e. Perm.trans (Perm.cons c rest) (Perm.swap b c cs))

arrange-Perm : (bs : List RtpBuffer) → Perm (arrange bs) bs
unfolding arrange
arrange-Perm [] = Perm.refl []
arrange-Perm (b ∷ bs) = Perm.trans (put-Perm b (arrange bs)) (Perm.cons b (arrange-Perm bs))

put-All :
    (n : ℕ) (b : RtpBuffer) (cs : List RtpBuffer)
    → n ≤ b.buffer_size
    → All (λ x. n ≤ x.buffer_size) cs
    → All (λ x. n ≤ x.buffer_size) (put b cs)
unfolding put
put-All n b [] low h = (low, tt)
put-All n b (c ∷ cs) low h =
    let rest = put-All n b cs low h.1 in
    if_elim (All (λ x. n ≤ x.buffer_size)) (leb b.buffer_size c.buffer_size) (λ e. (low, h))
      (λ e. (h.0, rest))

put-Ordered : (b : RtpBuffer) (cs : List RtpBuffer) → Ordered cs → Ordered (put b cs)
unfolding put
put-Ordered b [] o = (tt, tt)
put-Ordered b (c ∷ cs) o =
    let rest = put-Ordered b cs o.1 in
    if_elim Ordered (leb b.buffer_size c.buffer_size)
      (λ e.
        let low : b.buffer_size ≤ c.buffer_size = ground (arith, e) in
        (
          (
            low,
            All-map (λ x. c.buffer_size ≤ x.buffer_size) (λ x. b.buffer_size ≤ x.buffer_size) cs
                (λ x h. omega (arith, low, h)) o.0,
          ),
          o,
        ))
      (λ e. (put-All c.buffer_size b cs (ground (arith, e)) o.0, rest))

arrange-Ordered : (bs : List RtpBuffer) → Ordered (arrange bs)
unfolding arrange
arrange-Ordered [] = tt
arrange-Ordered (b ∷ bs) = put-Ordered b (arrange bs) (arrange-Ordered bs)

arrange-Sorts : Sorts arrange
arrange-Sorts = record { permutes = arrange-Perm; orders = arrange-Ordered }

-- The receiver has taken a buffer.
abbrev filling : Threads
filling = record start {
  receiver = some (get_rtp_video_buffer [] 8 start.helper).0;
  helper = (get_rtp_video_buffer [] 8 start.helper).1;
}

filling-Reach : Reach arrange filling
filling-Reach = next here (get [] 8 refl (omega arith) refl)

abbrev taken : RtpBuffer
taken = record {
  id = 0;
  raw_data = [];
  buffer_size = 16;
  valid_data_bytes = 0;
  payload = no_payload;
  payload_valid = false;
}

Reach-owners_example :
    (filling.receiver ≡ some taken
      → (times 0 filling.helper.free_buffers ≡ 0)
        × (times 0 filling.helper.encode_pkts ≡ 0)
        × (held 0 filling.decoder ≡ 0))
    × (filling.decoder ≡ some taken
        → (times 0 filling.helper.free_buffers ≡ 0)
          × (times 0 filling.helper.encode_pkts ≡ 0)
          × (held 0 filling.receiver ≡ 0))
Reach-owners_example = Reach-owners arrange arrange-Sorts filling taken filling-Reach

Reach-get_rtp_video_buffer_example :
    (8 ≤ (get_rtp_video_buffer [] 8 filling.helper).0.buffer_size)
    × (((get_rtp_video_buffer [] 8 filling.helper).1.next_id ≡ filling.helper.next_id)
        ⊎ All (λ x. x.buffer_size < 8) filling.helper.free_buffers)
    × (length filling.helper.free_buffers ≤ 30)
    × (length filling.helper.encode_pkts ≤ 30)
Reach-get_rtp_video_buffer_example =
    Reach-get_rtp_video_buffer arrange arrange-Sorts filling [] 8 filling-Reach (omega arith)

abbrev rtp_header : RtpHeader
rtp_header = record {
  start_of_header = 128;
  payload_type = 96;
  sequence_number = 1;
  timestamp = 2;
  ssrc = 3;
}

abbrev message : Buffer → RtpMessage
message payload = record {
  first = print_header rtp_header;
  others = payload ∷ [];
  header = rtp_header;
  payload = payload;
}

abbrev client : CameraClient
client = record { min_buffer_size = 20; rtp_info = none; helper = start.helper }

abbrev two : List RtpMessage
two = message (5 ∷ 6 ∷ []) ∷ message (7 ∷ []) ∷ []

two-IsPacket : All (IsPacket 20) two
unfolding print_header
two-IsPacket = (
  record { whole = refl; some_payload = omega arith; fits = omega arith },
  (record { whole = refl; some_payload = omega arith; fits = omega arith }, tt),
)

run_turns-publish_all_example :
    (c' : CameraClient) × (run_turns arrange []
        (receives ∷ decodes ∷ receives ∷ [])
        (publish_all two [])
        client
      ≡ some ([], c'))
    × ((each reserved_encode_pkt_num 0 (λ i h. decoder_round arrange h) c'.helper).decoded
        ≡ (5 ∷ 6 ∷ []) ∷ (7 ∷ []) ∷ [])
run_turns-publish_all_example =
    run_turns-publish_all arrange arrange-Sorts [] (receives ∷ decodes ∷ receives ∷ []) two client
      refl two-IsPacket (omega arith) tt (omega arith) (omega arith)

abbrev nv12 : List ℕ
nv12 = 78 ∷ 86 ∷ []

abbrev config : CameraConfig
config = record { sensor_name = 99 ∷ []; out_pixel_format = nv12; xres = 2; yres = 1 }

abbrev frame : ImageBuffer
frame = record { format = nv12; bytes = 7 ∷ 8 ∷ 9 ∷ [] }

abbrev ring : SharedMemPublisher
ring = record {
  slots = 2;
  single_buffer_size = 3;
  current_slot_index = 1;
  memory = replicate 6 0;
  published = [];
}

-- Enough of the message to tell the slots apart.
abbrev slot_only : CameraSensorMsg → Buffer
slot_only m = m.slot_index ∷ []

consumer_round-receive_shared_mem_data_example :
    (p' : SharedMemPublisher) × (consumer_round config (λ f. none) slot_only (frame ∷ []) ring
      ≡ some ((get_decoded_frame config (λ f. none) (frame ∷ [])).1, p'))
    × (p'.published ≡ (1 ∷ []) ∷ [])
    × (receive_shared_mem_data p'.memory 3 1 (mirror ring) ≡ some (some (7 ∷ 8 ∷ 9 ∷ [])))
unfolding fill_camera_sensor_msg get_decoded_frame need_pixel_converter
consumer_round-receive_shared_mem_data_example =
    consumer_round-receive_shared_mem_data config (λ f. none) slot_only (frame ∷ []) frame ring
      (record { mapped = refl; turning = omega arith }) refl (omega arith)

decoder_callbacks-latest_example : decoder_callbacks (frame ∷ []) [] ≡ latest 30 (frame ∷ [])
decoder_callbacks-latest_example = decoder_callbacks-latest (frame ∷ []) [] (omega arith)
