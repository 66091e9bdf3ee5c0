-- ===== src/Viewers/Streams.antt =====
-- RawCamera.cpp: a stream of frames of one size, and a frame that is larger than the first.
use posix_bsp_perf.Prelude.{
  ℕ, ◌<◌, ◌≡◌, refl, sym, ap, ◌∙◌, true, ◌||◌, Option, none, some, List, [], ◌∷◌, ◌++◌, append-nil,
  append_assoc, map, length, drop_all, All, OnSome, Option-cases, inl, inr, subst, arith,
}
use posix_bsp_perf.Buffers.{Buffer}
use posix_bsp_perf.SharedMem.{SharedMemSubscriber, write_bytes, receive_shared_mem_data}
use posix_bsp_perf.Camera.Frames.{CameraSensorMsg}
use posix_bsp_perf.TrafficCam.{same_label}
use posix_bsp_perf.Detector.Copies.{write_bytes_inside}
use posix_bsp_perf.Detector.Overrun.{write_bytes_past}
use posix_bsp_perf.Viewers.{
  rgb888, rgba8888, Emitted, Viewer, receive_frame, emit_frame, on_camera_message,
}

-- A message on its way: what arrives, what it says, and the shared memory at that time with its frame.
pub record Arrival : Type 0 where
  pub msg : Buffer
  pub told : CameraSensorMsg
  pub memory : Buffer
  pub bytes : Buffer

abbrev pub signal_of : Arrival → Emitted
signal_of a = record {
  width = a.told.width;
  height = a.told.height;
  pixel_format = a.told.pixel_format;
}

module _ (stale : ℕ → Buffer) (unpack : Buffer → Option CameraSensorMsg)
    (s : SharedMemSubscriber) where
  -- The message unpacks, has a format that is shown, and names a frame of `n` bytes that is there.
  pub record IsGood (n : ℕ) (a : Arrival) : Type 0 where
    pub known : unpack a.msg ≡ some a.told
    pub shows :
        (same_label a.told.pixel_format rgb888 || same_label a.told.pixel_format rgba8888) ≡ true
    pub size : a.told.data_size ≡ n
    pub there :
        receive_shared_mem_data a.memory a.told.data_size a.told.slot_index s ≡ some (some a.bytes)
    pub whole : length a.bytes ≡ n

  -- The rounds of `CameraConsumerLoop` on what arrives.
  unfoldable pub on_arrivals : List Arrival → Viewer → Option Viewer
  unfolding on_camera_message
  on_arrivals [] v = some v
  on_arrivals (a ∷ rest) v = elim (on_camera_message stale unpack a.memory s a.msg v) [
    | none ↦ none
    | some v' ↦ on_arrivals rest v'
  ]

  -- The viewer behind the round.
  abbrev after : Arrival → Viewer → Viewer
  after a v = emit_frame a.told (record v { data_buffer = some a.bytes })

  filled_whole :
      (buffer bytes : Buffer)
      → length bytes ≡ length buffer
      → write_bytes buffer 0 bytes ≡ some bytes
  filled_whole buffer bytes h =
      write_bytes_inside buffer bytes (omega (arith, h))
      ∙ ap (λ t. some (bytes ++ t)) (drop_all buffer (length bytes) (omega (arith, h)))
      ∙ ap some (append-nil bytes)

  receive_frame-whole :
      (n : ℕ) (a : Arrival) (v : Viewer)
      → length (stale n) ≡ n
      → IsGood n a
      → OnSome (λ b. length b ≡ n) v.data_buffer
      → receive_frame stale a.memory s a.told v ≡ some a.bytes
  unfolding receive_frame
  receive_frame-whole n a v made g ready = elim (Option-cases v.data_buffer) [
    | inl null ↦
        let long : length a.bytes ≡ length (stale a.told.data_size) =
          g.whole ∙ sym made ∙ ap (λ k. length (stale k)) (sym g.size) in
        rw (g.there, receive_frame) (rw (null) (filled_whole (stale a.told.data_size) a.bytes long))
    | inr (b, has) ↦
        let held : length b ≡ n = subst (OnSome λ c. length c ≡ n) has ready in
        rw (g.there, receive_frame) (rw (has) (filled_whole b a.bytes (g.whole ∙ sym held)))
  ]

  on_camera_message-after :
      (n : ℕ) (a : Arrival) (v : Viewer)
      → length (stale n) ≡ n
      → IsGood n a
      → OnSome (λ b. length b ≡ n) v.data_buffer
      → on_camera_message stale unpack a.memory s a.msg v ≡ some (after a v)
  unfolding on_camera_message
  on_camera_message-after n a v made g ready =
      rw (g.known, on_camera_message)
        (rw (receive_frame-whole n a v made g ready) (rw (g.shows) refl))

  -- However many frames arrive that are there, have a format that is shown and are of one size, which is
  -- the size of the buffer if there is one: a signal goes out for each of them, in order, and after the
  -- last the buffer, to which the pointers of all the signals lead, holds the last frame, whole.
  pub on_arrivals_shows :
      (n : ℕ) (arrivals : List Arrival) (a : Arrival) (v : Viewer)
      → length (stale n) ≡ n
      → All (IsGood n) arrivals
      → IsGood n a
      → OnSome (λ b. length b ≡ n) v.data_buffer
      → (v' : Viewer) × (on_arrivals (arrivals ++ a ∷ []) v ≡ some v')
        × (v'.emitted ≡ v.emitted ++ map signal_of (arrivals ++ a ∷ []))
        × (v'.data_buffer ≡ some a.bytes)
  unfolding on_arrivals
  on_arrivals_shows n [] a v made good last ready =
      (after a v, rw (on_camera_message-after n a v made last ready, on_arrivals) refl, refl, refl)
  on_arrivals_shows n (b ∷ rest) a v made (g, good) last ready =
      let (v', ran, signals, held) =
        on_arrivals_shows n rest a (after b v) made good last g.whole in
      (
        v',
        rw (on_camera_message-after n b v made g ready, on_arrivals) ran,
        signals ∙ append_assoc v.emitted (signal_of b ∷ []) (map signal_of (rest ++ a ∷ [])),
        held,
      )

  -- A viewer with a buffer that is smaller than the frame of a message writes past the buffer's end.
  pub on_camera_message_overruns :
      (memory msg buffer bytes : Buffer) (m : CameraSensorMsg) (v : Viewer)
      → unpack msg ≡ some m
      → v.data_buffer ≡ some buffer
      → receive_shared_mem_data memory m.data_size m.slot_index s ≡ some (some bytes)
      → length buffer < length bytes
      → on_camera_message stale unpack memory s msg v ≡ none
  unfolding on_camera_message receive_frame
  on_camera_message_overruns memory msg buffer bytes m v known has got small =
      let past : receive_frame stale memory s m v ≡ none =
        rw (got, receive_frame) (rw (has) (write_bytes_past buffer bytes small)) in
      rw (known, on_camera_message) (rw (past) refl)
