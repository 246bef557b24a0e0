-- ===== src/Stream/Examples.antt =====
-- streamBus.ts: runs of the bus at concrete inputs.
use pinout.Prelude.{
  ◌≤◌, ◌≡◌, refl, max, none, some, List, [], ◌∷◌, nat_eq, string_eq, All, length, map,
}
use pinout.Prelude.Json.{null}
use pinout.Prelude.Map.{get, set, values}
use pinout.Stream.{
  PublishOptions, init, register, publish, subscribe, finish, take_frame, notify, notify_at,
  push_at, push_frame, offer, fan_out, new_frame, recorded, shift,
}
use pinout.Stream.Frames.{StreamDescriptor, drop_oldest}
use pinout.Stream.Handle.{
  next, next_at, close, close_stream, close_all, end_all, finish_handle, stats, StreamStats,
}
use pinout.Stream.History.{Call, registers, publishes, subscribes, step, run}
use pinout.Stream.Bounds.{run-init-Small}

stream_bus : Unit {0}
unfolding run step register publish subscribe finish take_frame notify notify_at push_at push_frame
    offer fan_out new_frame recorded shift next next_at close close_stream close_all end_all
    finish_handle stats get set
stream_bus = tt

abbrev camera : StreamDescriptor
camera = record {
  id = "rgb";
  device_id = "cam";
  name = "rgb";
  codec = none;
  nominal_rate_hz = none;
  layout = none;
  metadata = none;
}

abbrev plain : PublishOptions
plain = record { source_at = none; metadata = none }

-- Three frames for a subscriber that keeps two.
abbrev calls : List Call
calls =
    registers camera
    ∷ subscribes "rgb" (record { buffer_size = some 2; policy = some drop_oldest })
    ∷ publishes "rgb" null plain 5
    ∷ publishes "rgb" null plain 6
    ∷ publishes "rgb" null plain 7
    ∷ []

newest_kept :
    map (λ s. map (λ f. f.sequence) s.queue) (values (run init calls).handles) ≡ (1 ∷ 2 ∷ []) ∷ []
unfolding stream_bus
newest_kept = refl

abbrev counted : StreamStats
counted = record { published_frames = 3; dropped_frames = 1; subscribers = 1 }

stats_counted : stats (run init calls) "rgb" ≡ some counted
unfolding stream_bus
stats_counted = refl

run-init-Small_example :
    All (λ s. length s.queue ≤ max 1 s.buffer_size) (values (run init calls).handles)
run-init-Small_example = run-init-Small calls
