-- ===== src/Detector/Copies.antt =====
-- objDetector.cpp: the copy from the shared memory into a frame, and the frame that is chosen for it.
use posix_bsp_perf.Prelude.{
  ℕ, ◌+◌, ◌*◌, ◌≤◌, ◌≡◌, refl, ap, subst, inl, inr, Option, none, some, ◌++◌, leb, if_elim, length,
  length-append, length-take, length-drop, take, drop, min, All, Bool-cases, Option-cases, arith,
}
use posix_bsp_perf.Buffers.{Buffer}
use posix_bsp_perf.Images.{ImageView, make_host_image_view}
use posix_bsp_perf.SharedMem.{SharedMemSubscriber, read_bytes, write_bytes, receive_shared_mem_data}
use posix_bsp_perf.Camera.Frames.{CameraSensorMsg}
use posix_bsp_perf.Detector.{FrameQueues, frame_desc, take_frame, receive_into}
use posix_bsp_perf.Detector.Rooms.{List-cases}

-- A frame that owns an array of `n` bytes and describes itself as that large.
pub record IsSized (n : ℕ) (frame : ImageView) : Type 0 where
  pub array : Buffer
  pub there : frame.pixels ≡ some array
  pub long : length array ≡ n
  pub told : frame.desc.data_size ≡ n

length-read_bytes :
    (memory : Buffer) (at n : ℕ) (bytes : Buffer)
    → read_bytes memory at n ≡ some bytes
    → length bytes ≤ n
unfolding read_bytes
length-read_bytes memory at n bytes =
    if_elim (λ r. r ≡ some bytes → length bytes ≤ n) (leb (at + n) (length memory))
      (λ e q.
        let same : take n (drop at memory) ≡ bytes = cc in
        omega (arith, ap length same, length-take n (drop at memory)))
      (λ e q. absurd cc)

-- What the copy brings is no longer than was asked for.
pub length-receive_shared_mem_data :
    (memory : Buffer) (n slot : ℕ) (s : SharedMemSubscriber) (bytes : Buffer)
    → receive_shared_mem_data memory n slot s ≡ some (some bytes)
    → length bytes ≤ n
unfolding receive_shared_mem_data
length-receive_shared_mem_data memory n slot s bytes got =
    let at = slot * s.single_buffer_size in
    let k = min s.single_buffer_size n in
    elim (Bool-cases (leb s.slots slot)) [
      | inl t ↦
          let none_here : receive_shared_mem_data memory n slot s ≡ some none =
            rw (t, receive_shared_mem_data) refl in
          absurd cc
      | inr f ↦ elim (Option-cases (read_bytes memory at k)) [
        | inl fault ↦
            let none_here : receive_shared_mem_data memory n slot s ≡ none =
              rw (f, receive_shared_mem_data) (rw (fault) refl) in
            absurd cc
        | inr (b, read) ↦
            let here : receive_shared_mem_data memory n slot s ≡ some (some b) =
              rw (f, receive_shared_mem_data) (rw (read) refl) in
            let same : b ≡ bytes = cc in
            omega (arith, ap length same, length-read_bytes memory at k b read)
      ]
    ]

pub write_bytes_inside :
    (array bytes : Buffer)
    → length bytes ≤ length array
    → write_bytes array 0 bytes ≡ some (bytes ++ drop (length bytes) array)
unfolding write_bytes
write_bytes_inside array bytes h =
    if_elim (λ r. r ≡ some (bytes ++ drop (length bytes) array))
      (leb (0 + length bytes) (length array))
      (λ e.
        let zero_add : 0 + length bytes ≡ length bytes = omega arith in
        ap (λ n. some (bytes ++ drop n array)) zero_add)
      (λ e. absurd (ground (arith, e)))

-- The frame, filled with at most as many bytes as its array has.
pub receive_into-bytes :
    (memory : Buffer) (s : SharedMemSubscriber) (m : CameraSensorMsg) (frame : ImageView)
    (array bytes : Buffer)
    → frame.pixels ≡ some array
    → length bytes ≤ length array
    → receive_shared_mem_data memory m.data_size m.slot_index s ≡ some (some bytes)
    → receive_into memory s m frame
      ≡ some (record frame { pixels = some (bytes ++ drop (length bytes) array) })
unfolding receive_into
receive_into-bytes memory s m frame array bytes there short got =
    rw (got, receive_into) (rw (there) (rw (write_bytes_inside array bytes short) refl))

-- A copy of at most that many bytes stays inside the frame, and leaves it as large.
pub receive_into-IsSized :
    (memory : Buffer) (s : SharedMemSubscriber) (m : CameraSensorMsg) (frame : ImageView)
    (got : Option Buffer)
    → IsSized m.data_size frame
    → receive_shared_mem_data memory m.data_size m.slot_index s ≡ some got
    → (filled : ImageView) × (receive_into memory s m frame ≡ some filled)
      × IsSized m.data_size filled
unfolding receive_into
receive_into-IsSized memory s m frame none is e = (frame, rw (e, receive_into) refl, is)
receive_into-IsSized memory s m frame (some bytes) is e =
    let short = length-receive_shared_mem_data memory m.data_size m.slot_index s bytes e in
    let fits : length bytes ≤ length is.array = omega (arith, short, is.long) in
    let long = length-append bytes (drop (length bytes) is.array) in
    let left = length-drop (length bytes) is.array in
    (
      record frame { pixels = some (bytes ++ drop (length bytes) is.array) },
      receive_into-bytes memory s m frame is.array bytes is.there fits e,
      record {
        array = bytes ++ drop (length bytes) is.array;
        there = refl;
        long = omega (arith, long, left, fits, is.long);
        told = is.told;
      },
    )

module _ (stale : ℕ → Buffer) (stale_long : (n : ℕ) → length (stale n) ≡ n) where
  -- The frame that is chosen for a message, when the free ones are of the message's size.
  pub take_frame-IsSized :
      (m : CameraSensorMsg) (q : FrameQueues)
      → All (IsSized m.data_size) q.free_frames
      → IsSized m.data_size (take_frame stale m q).0
        × All (IsSized m.data_size) (take_frame stale m q).1.free_frames
        × ((take_frame stale m q).1.inference_frames ≡ q.inference_frames)
  unfolding take_frame make_host_image_view frame_desc
  take_frame-IsSized m q all = elim (List-cases q.free_frames) [
    | inl e ↦ rw (e) (
      record {
        array = stale m.data_size;
        there = refl;
        long = stale_long m.data_size;
        told = refl;
      },
      tt,
      refl,
    )
    | inr (f, fs, e) ↦
        let (one, rest) = subst (All (IsSized m.data_size)) e all in rw (e) (one, rest, refl)
  ]
