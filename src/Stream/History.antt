-- ===== src/Stream/History.antt =====
-- streamBus.ts: sequences of calls on the bus and on the handles of its subscribers.
use pinout.Prelude.{ℕ, List, [], ◌∷◌, String}
use pinout.Prelude.Json.{Json}
use pinout.Stream.{StreamBus, SubscribeOptions, PublishOptions, register, publish, subscribe}
use pinout.Stream.Frames.{StreamDescriptor}
use pinout.Stream.Handle.{next, close, close_stream}

pub data Call : Type 0 where
  registers : StreamDescriptor → Call
  publishes : String → Json → PublishOptions → ℕ → Call
  subscribes : String → SubscribeOptions → Call
  takes : ℕ → ℕ → Call
  closes : ℕ → Call
  closes_stream : String → Call

unfoldable pub step : StreamBus → Call → StreamBus
step b (registers d) = (register b d).0
step b (publishes id payload options now) = (publish b id payload options now).0
step b (subscribes id options) = (subscribe b id options).0
step b (takes h promise) = next b h promise
step b (closes h) = close b h
step b (closes_stream id) = close_stream b id

unfoldable pub run : StreamBus → List Call → StreamBus
run b [] = b
run b (c ∷ cs) = run (step b c) cs
