-- ===== src/Camera/Latest.antt =====
-- The queue of decoded frames, and the way of a frame to the subscribers.
use posix_bsp_perf.Prelude.{
  ℕ, zero, suc, ◌+◌, ◌-◌, ◌≤◌, ◌<◌, ◌≡◌, refl, sym, ap, ◌∙◌, Option, some, List, [], ◌∷◌, ◌++◌,
  append_assoc, append-nil, ltb, if_elim, length, length-append, length-drop, drop, drop-add, arith,
}
use posix_bsp_perf.Buffers.{Buffer}
use posix_bsp_perf.SharedMem.{SharedMemPublisher, receive_shared_mem_data}
use posix_bsp_perf.SharedMem.Slots.{mirror}
use posix_bsp_perf.SharedMem.Ring.{Frame, IsRing, publish_frame, publish_frame_lem, taken}
use posix_bsp_perf.Camera.{trim}
use posix_bsp_perf.Camera.Sorted.{length-trim}
use posix_bsp_perf.Camera.Frames.{
  reserved_frame_num, ImageBuffer, decoder_callback, CameraConfig, CameraSensorMsg,
  fill_camera_sensor_msg, get_decoded_frame, publish_image, consumer_round,
}

trim-drop {ℓ} : {A : Type ℓ} (limit : ℕ) (xs : List A) → trim limit xs ≡ drop (length xs - limit) xs
unfolding trim
trim-drop limit [] = let e : 0 - limit ≡ 0 = omega arith in ap (λ n. drop n []) (sym e)
trim-drop limit (x ∷ xs) =
    let rest = trim-drop limit xs in
    if_elim (λ r. r ≡ drop (suc (length xs) - limit) (x ∷ xs)) (ltb limit (suc (length xs)))
      {y = x ∷ xs}
      (λ e.
        let q : suc (length xs - limit) ≡ suc (length xs) - limit = ground (arith, e) in
        rest ∙ ap (λ n. drop n (x ∷ xs)) q)
      (λ e. let q : 0 ≡ suc (length xs) - limit = ground (arith, e) in ap (λ n. drop n (x ∷ xs)) q)

-- The frames that come from the decoder, one call of the callback for each.
unfoldable pub decoder_callbacks : List ImageBuffer → List ImageBuffer → List ImageBuffer
unfolding decoder_callback
decoder_callbacks [] queue = queue
decoder_callbacks (f ∷ fs) queue = decoder_callbacks fs (decoder_callback f queue)

-- The last `n` of a list.
abbrev pub latest {ℓ} : {A : Type ℓ} → ℕ → List A → List A
latest n xs = drop (length xs - n) xs

drop-append_left {ℓ} :
    {A : Type ℓ} (k : ℕ) (xs ys : List A) → k ≤ length xs → drop k (xs ++ ys) ≡ drop k xs ++ ys
drop-append_left zero xs ys h = refl
drop-append_left (suc k) [] ys h = absurd (omega arith)
drop-append_left (suc k) (x ∷ xs) ys h = drop-append_left k xs ys (omega arith)

latest-append {ℓ} :
    {A : Type ℓ} (n : ℕ) (xs ys : List A) → latest n (latest n xs ++ ys) ≡ latest n (xs ++ ys)
latest-append n xs ys =
    let k = length xs - n in
    let front = drop-append_left k xs ys (omega arith) in
    let long = length-append (drop k xs) ys in
    let len : length (drop k xs ++ ys) - n + k ≡ length (xs ++ ys) - n =
      omega (arith, long, length-drop k xs, length-append xs ys) in
    let len' : k + (length (drop k xs ++ ys) - n) ≡ length (xs ++ ys) - n = omega (arith, len) in
    ap (drop (length (drop k xs ++ ys) - n)) (sym front)
    ∙ sym (drop-add k (length (drop k xs ++ ys) - n) (xs ++ ys))
    ∙ ap (λ m. drop m (xs ++ ys)) len'

-- From a queue of at most 30 frames, whatever number of frames the decoder puts out, the queue holds the
-- last 30 of all, in order.
pub decoder_callbacks-latest :
    (fs queue : List ImageBuffer)
    → length queue ≤ reserved_frame_num
    → decoder_callbacks fs queue ≡ latest reserved_frame_num (queue ++ fs)
unfolding decoder_callbacks decoder_callback
decoder_callbacks-latest [] queue h =
    let e : 0 ≡ length (queue ++ []) - 30 = omega (arith, h, length-append queue []) in
    sym (append-nil queue) ∙ ap (λ n. drop n (queue ++ [])) e
decoder_callbacks-latest (f ∷ fs) queue h =
    let q = queue ++ f ∷ [] in
    let short = length-trim reserved_frame_num q in
    decoder_callbacks-latest fs (trim reserved_frame_num q) short
    ∙ ap (λ w. latest reserved_frame_num (w ++ fs)) (trim-drop reserved_frame_num q)
    ∙ latest-append reserved_frame_num q fs
    ∙ ap (latest reserved_frame_num) (append_assoc queue (f ∷ []) fs)

-- The message that announces a frame in the slot that comes next.
abbrev pub announced : CameraConfig → ImageBuffer → SharedMemPublisher → CameraSensorMsg
announced c frame p = fill_camera_sensor_msg c (length frame.bytes) p.current_slot_index

publish_image-publish_frame :
    (c : CameraConfig) (pack : CameraSensorMsg → Buffer) (frame : ImageBuffer)
    (p : SharedMemPublisher)
    → 0 < p.slots
    → publish_image c pack frame p
      ≡ publish_frame (record { msg = pack (announced c frame p); bytes = frame.bytes }) p
unfolding publish_image publish_frame
publish_image-publish_frame c pack frame p h = rw (taken p h, publish_image, publish_frame) refl

-- A round of consumerLoop on a frame that getDecodedFrame gives, into a mapped ring with slots at least
-- as large: one message goes out, and it names the slot in which a subscriber finds the frame, whole, by
-- the size that the message names.
pub consumer_round-receive_shared_mem_data :
    (c : CameraConfig) (convert : ImageBuffer → Option ImageBuffer)
    (pack : CameraSensorMsg → Buffer) (queue : List ImageBuffer) (frame : ImageBuffer)
    (p : SharedMemPublisher)
    → IsRing p
    → (get_decoded_frame c convert queue).0 ≡ some frame
    → length frame.bytes ≤ p.single_buffer_size
    → (p' : SharedMemPublisher) × (consumer_round c convert pack queue p
        ≡ some ((get_decoded_frame c convert queue).1, p'))
      × (p'.published ≡ p.published ++ pack (announced c frame p) ∷ [])
      × (receive_shared_mem_data p'.memory
            (announced c frame p).data_size
            (announced c frame p).slot_index
            (mirror p)
          ≡ some (some frame.bytes))
unfolding consumer_round fill_camera_sensor_msg
consumer_round-receive_shared_mem_data c convert pack queue frame p ring taken_one fits =
    let f : Frame = record { msg = pack (announced c frame p); bytes = frame.bytes } in
    let (p', st) = publish_frame_lem f p ring fits in
    let ran = publish_image-publish_frame c pack frame p (omega (arith, ring.turning)) ∙ st.ran in
    (p', rw (taken_one, consumer_round) (rw (ran) refl), st.topic, st.here)
