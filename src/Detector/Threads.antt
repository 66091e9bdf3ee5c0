-- ===== src/Detector/Threads.antt =====
-- objDetector.cpp: the two threads, a step of either at a time. A step is what the code does under one
-- lock, or on a frame that the thread has to itself. The messages that come satisfy `Sent`.
use posix_bsp_perf.Prelude.{ℕ, ◌≡◌, Option, none, some, List, [], ◌∷◌}
use posix_bsp_perf.Buffers.{Buffer}
use posix_bsp_perf.Images.{ImageView}
use posix_bsp_perf.SharedMem.{SharedMemSubscriber}
use posix_bsp_perf.Camera.Frames.{CameraSensorMsg}
use posix_bsp_perf.Detector.{
  FrameQueues, take_frame, receive_into, room_for_inference, push_inference, trim_free, give_back,
}

-- Where `runLoop` stands.
pub data Receiver : Type 0 where
  waits : Receiver
  has_room : Receiver
  fills : (m : CameraSensorMsg) (frame : ImageView) → Receiver
  pushes : (frame : ImageView) → Receiver
  trims : Receiver

pub record Threads : Type 0 where
  pub queues : FrameQueues
  pub receiver : Receiver
  pub worker : Option ImageView

abbrev pub start : Threads
start = record {
  queues = record { free_frames = []; inference_frames = [] };
  receiver = waits;
  worker = none;
}

module _ (stale : ℕ → Buffer) (s : SharedMemSubscriber) (Sent : CameraSensorMsg → Type 0) where
  pub data Step (t u : Threads) : Type 0 where
    -- The receiver: a message came, and there is room for its frame.
    room :
        t.receiver ≡ waits
        → u ≡ record t { receiver = has_room; queues = room_for_inference t.queues }
        → Step t u
    -- The message could not be unpacked.
    fail : t.receiver ≡ has_room → u ≡ record t { receiver = waits } → Step t u
    choose :
        (m : CameraSensorMsg)
        → Sent m
        → t.receiver ≡ has_room
        → u ≡ record t {
          receiver = fills m (take_frame stale m t.queues).0;
          queues = (take_frame stale m t.queues).1;
        }
        → Step t u
    fill :
        (m : CameraSensorMsg) (memory : Buffer) (frame filled : ImageView)
        → t.receiver ≡ fills m frame
        → receive_into memory s m frame ≡ some filled
        → u ≡ record t { receiver = pushes filled }
        → Step t u
    push :
        (frame : ImageView)
        → t.receiver ≡ pushes frame
        → u ≡ record t { receiver = trims; queues = push_inference frame t.queues }
        → Step t u
    trim :
        t.receiver ≡ trims
        → u ≡ record t { receiver = waits; queues = trim_free t.queues }
        → Step t u
    -- The worker: from the queue, and back to the pool.
    pop :
        (frame : ImageView) (frames : List ImageView)
        → t.worker ≡ none
        → t.queues.inference_frames ≡ frame ∷ frames
        → u ≡ record t {
          worker = some frame;
          queues = record { free_frames = t.queues.free_frames; inference_frames = frames };
        }
        → Step t u
    back :
        (frame : ImageView)
        → t.worker ≡ some frame
        → u ≡ record t { worker = none; queues = give_back frame t.queues }
        → Step t u

  pub data Reach : Threads → Type 0 where
    here : Reach start
    next : {t u : Threads} → Reach t → Step t u → Reach u
