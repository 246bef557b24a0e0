-- ===== src/Stream/Frames.antt =====
-- stream/streamBus.ts: descriptors, frames and subscribers.
use pinout.Prelude.{ℕ, Bool, Option, List, String, string_eq, nat_eq}
use pinout.Prelude.Json.{Json, Object}

pub record StreamDescriptor : Type 0 where
  pub id : String
  pub device_id : String
  pub name : String
  pub codec : Option String
  pub nominal_rate_hz : Option ℕ
  pub layout : Option String
  pub metadata : Option Object

pub record StreamFrame : Type 0 where
  pub stream_id : String
  pub sequence : ℕ
  pub source_at : Option ℕ
  pub at : ℕ
  pub payload : Json
  pub metadata : Option Object

pub data BackpressurePolicy : Type 0 where
  drop_oldest drop_latest latest_only : BackpressurePolicy

-- `waiting` is the promise that `notify` resolves, and `done` is `iteratorDone`; `ended` tells
-- whether the handle's promise `ended` is resolved.
pub record Subscriber : Type 0 where
  pub stream_id : String
  pub queue : List StreamFrame
  pub buffer_size : ℕ
  pub policy : BackpressurePolicy
  pub waiting : Option ℕ
  pub closed : Bool
  pub done : Bool
  pub ended : Bool

pub record Counters : Type 0 where
  pub published : ℕ
  pub dropped : ℕ

pub data StreamError : Type 0 where
  already_registered unknown_stream : String → StreamError
