-- ===== src/SharedMem/Tests.antt =====
-- Runs of the shared memory on small inputs.
use posix_bsp_perf.Prelude.{◌≡◌, refl, true, none, some, [], ◌∷◌, replicate, arith}
use posix_bsp_perf.SharedMem.{
  SharedMemPublisher, create_publisher, publish_data, receive_shared_mem_data,
}
use posix_bsp_perf.SharedMem.Slots.{mirror, Stored, publish_data-Stored}
use posix_bsp_perf.SharedMem.Ring.{Frame, publish_frames, IsRing, publish_frames-publish_frame}

-- Two slots of three bytes.
abbrev small : SharedMemPublisher
small = record {
  slots = 2;
  single_buffer_size = 3;
  current_slot_index = 0;
  memory = replicate 6 0;
  published = [];
}

small_created : create_publisher true true true 2 3 ≡ some small
unfolding create_publisher
small_created = refl

too_many_slots : create_publisher true true true 33 3 ≡ none
unfolding create_publisher
too_many_slots = refl

small-IsRing : IsRing small
small-IsRing = record { mapped = refl; turning = omega arith }

publish_data-Stored_run :
    (p' : SharedMemPublisher) × (publish_data (9 ∷ []) (1 ∷ 2 ∷ []) 1 small ≡ some (true, p'))
    × Stored small (9 ∷ []) 1 (1 ∷ 2 ∷ []) p'
publish_data-Stored_run =
    publish_data-Stored small 1 (1 ∷ 2 ∷ []) refl (omega arith) (omega arith) (9 ∷ [])

abbrev first : Frame
first = record { msg = 0 ∷ []; bytes = 7 ∷ 8 ∷ 9 ∷ [] }

abbrev second : Frame
second = record { msg = 1 ∷ []; bytes = 4 ∷ [] }

publish_frames-publish_frame_example :
    (p' : SharedMemPublisher) × (publish_frames (first ∷ second ∷ []) small ≡ some p')
    × (receive_shared_mem_data p'.memory 3 0 (mirror small) ≡ some (some (7 ∷ 8 ∷ 9 ∷ [])))
publish_frames-publish_frame_example =
    publish_frames-publish_frame first (second ∷ []) small small-IsRing
      (omega arith, (omega arith, tt)) (omega arith)
