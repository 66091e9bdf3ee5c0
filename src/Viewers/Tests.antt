-- ===== src/Viewers/Tests.antt =====
-- Runs of the viewer of a camera with messages that name a slot only.
use posix_bsp_perf.Prelude.{ℕ, ◌≡◌, refl, none, some, Option, [], ◌∷◌, map, replicate, arith}
use posix_bsp_perf.Buffers.{Buffer}
use posix_bsp_perf.SharedMem.{SharedMemSubscriber, read_bytes, receive_shared_mem_data}
use posix_bsp_perf.Camera.Frames.{CameraSensorMsg}
use posix_bsp_perf.Viewers.{rgb888, Viewer, on_camera_message}
use posix_bsp_perf.Viewers.Streams.{
  Arrival, IsGood, signal_of, on_arrivals, on_arrivals_shows, on_camera_message_overruns,
}

abbrev zeros : ℕ → Buffer
zeros n = replicate n 0

abbrev message : ℕ → CameraSensorMsg
message slot = record {
  publisher_id = 99 ∷ [];
  pixel_format = rgb888;
  width = 1;
  height = 1;
  data_size = 3;
  slot_index = slot;
}

abbrev unpack : Buffer → Option CameraSensorMsg
unpack [] = none
unpack (slot ∷ rest) = some (message slot)

abbrev subscriber : SharedMemSubscriber
subscriber = record { slots = 2; single_buffer_size = 3 }

abbrev memory : Buffer
memory = 1 ∷ 2 ∷ 3 ∷ 4 ∷ 5 ∷ 6 ∷ []

abbrev arrival : Arrival
arrival = record { msg = 1 ∷ []; told = message 1; memory = memory; bytes = 4 ∷ 5 ∷ 6 ∷ [] }

abbrev viewer : Viewer
viewer = record { data_buffer = none; emitted = [] }

arrival-IsGood : IsGood zeros unpack subscriber 3 arrival
unfolding receive_shared_mem_data read_bytes
arrival-IsGood = record { known = refl; shows = refl; size = refl; there = refl; whole = refl }

on_arrivals_shows_example :
    (v' : Viewer) × (on_arrivals zeros unpack subscriber (arrival ∷ arrival ∷ []) viewer ≡ some v')
    × (v'.emitted ≡ map signal_of (arrival ∷ arrival ∷ []))
    × (v'.data_buffer ≡ some (4 ∷ 5 ∷ 6 ∷ []))
on_arrivals_shows_example =
    on_arrivals_shows zeros unpack subscriber 3 (arrival ∷ []) arrival viewer refl
      (arrival-IsGood, tt) arrival-IsGood tt

on_camera_message_overruns_run :
    on_camera_message zeros unpack memory subscriber
      (1 ∷ [])
      (record { data_buffer = some (9 ∷ []); emitted = [] })
    ≡ none
on_camera_message_overruns_run =
    on_camera_message_overruns zeros unpack subscriber memory (1 ∷ []) (9 ∷ []) (4 ∷ 5 ∷ 6 ∷ [])
      (message 1) (record { data_buffer = some (9 ∷ []); emitted = [] }) refl refl
      arrival-IsGood.there (omega arith)
