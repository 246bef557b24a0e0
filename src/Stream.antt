-- ===== src/Stream.antt =====
-- packages/core/src/stream/streamBus.ts: the broker of frames, with a bounded queue per subscriber.
-- A subscriber is an object that its handle and the sets of its stream share, so it stands under a
-- number. A promise is a number too; `resolved` has what each was resolved with, `none` for the end.
pub mod Handle
pub mod History
pub mod Bounds
pub mod Ledger
pub mod Numbering
pub mod Frames
mod Examples
use pinout.Prelude.{
  ℕ, ◌+◌, Bool, true, false, not, ◌&&◌, Option, none, some, List, [], ◌∷◌, ◌++◌, String, ◌==◌,
  string_eq, nat_eq, leb, if◌then◌else◌, or_default, length, Result, ok, err, is_some, keep,
}
use pinout.Prelude.Json.{Json, Object}
use pinout.Prelude.Map.{Map, get, set, delete, has, values}
use pinout.Stream.Frames.{
  BackpressurePolicy, Counters, StreamDescriptor, StreamError, StreamFrame, Subscriber,
  already_registered, drop_latest, drop_oldest, latest_only, unknown_stream,
}

pub record StreamBus : Type 0 where
  pub streams : Map String StreamDescriptor
  pub subscribers : Map String (List ℕ)
  pub handles : Map ℕ Subscriber
  pub next_handle : ℕ
  pub latest_frame : Map String StreamFrame
  pub sequences : Map String ℕ
  pub end_signals : Map String (List ℕ)
  pub stats_map : Map String Counters
  pub resolved : List (ℕ × Option StreamFrame)

abbrev pub init : StreamBus
init = record {
  streams = [];
  subscribers = [];
  handles = [];
  next_handle = 0;
  latest_frame = [];
  sequences = [];
  end_signals = [];
  stats_map = [];
  resolved = [];
}

unfoldable pub register :
    StreamBus → StreamDescriptor → StreamBus × Result StreamError StreamDescriptor
register b d = if has d.id b.streams then (b, err (already_registered d.id)) else (
  record b {
    streams = set d.id d b.streams;
    stats_map = set d.id (record { published = 0; dropped = 0 }) b.stats_map;
  },
  ok d,
)

-- `if (deviceId && ...)`: an empty device id selects every stream.
abbrev pub selects : Option String → StreamDescriptor → Bool
selects none d = true
selects (some device_id) d = if device_id == "" then true else d.device_id == device_id

unfoldable pub list : StreamBus → Option String → List StreamDescriptor
list b device_id = keep (selects device_id) (values b.streams)

unfoldable pub get_stream : StreamBus → String → Option StreamDescriptor
get_stream b id = get id b.streams

unfoldable pub snapshot : StreamBus → String → Option StreamFrame
snapshot b id = get id b.latest_frame

abbrev pub without : ℕ → List ℕ → List ℕ
without h hs = keep (λ i. not (i == h)) hs

abbrev pub remove_handle : ℕ → String → Map String (List ℕ) → Map String (List ℕ)
remove_handle h id m = elim (get id m) [ none ↦ m | some hs ↦ set id (without h hs) m ]

-- `finish` of the handle `h`.
unfoldable pub finish : StreamBus → ℕ → Subscriber → StreamBus
finish b h s = if s.done then b else record b {
  handles = set h (record s { done = true; ended = true }) b.handles;
  subscribers = remove_handle h s.stream_id b.subscribers;
  end_signals = remove_handle h s.stream_id b.end_signals;
}

abbrev pub resolve : StreamBus → ℕ → Option StreamFrame → StreamBus
resolve b promise result = record b { resolved = b.resolved ++ (promise, result) ∷ [] }

-- A resolved promise takes the first frame of the queue.
unfoldable pub take_frame : StreamBus → ℕ → Subscriber → ℕ → List StreamFrame → StreamBus
take_frame b h s promise [] =
    if s.closed
    then resolve (finish (record b { handles = set h s b.handles }) h s) promise none
    else record b { handles = set h s b.handles }
take_frame b h s promise (f ∷ fs) =
    resolve (record b { handles = set h (record s { queue = fs }) b.handles }) promise (some f)

-- `sub.notify()`: the closure that `next` left is called once.
unfoldable pub notify_at : StreamBus → ℕ → Subscriber → Option ℕ → StreamBus
notify_at b h s none = record b { handles = set h s b.handles }
notify_at b h s (some promise) =
    let quiet = record s { waiting = none } in
    if s.done
    then resolve (record b { handles = set h quiet b.handles }) promise none
    else take_frame b h quiet promise s.queue

unfoldable pub notify : StreamBus → ℕ → Subscriber → StreamBus
notify b h s = notify_at b h s s.waiting

unfoldable pub shift : List StreamFrame → List StreamFrame
shift [] = []
shift (f ∷ fs) = fs

-- The queue after a frame under each policy, and whether the frame counts as dropped. `full` tells
-- whether the queue has reached its buffer size.
unfoldable pub push_at :
    BackpressurePolicy → Bool → List StreamFrame → StreamFrame → List StreamFrame × Bool
push_at latest_only full q f = (f ∷ [], false)
push_at drop_oldest true q f = (shift q ++ f ∷ [], true)
push_at drop_latest true q f = (q, true)
push_at drop_oldest false q f = (q ++ f ∷ [], false)
push_at drop_latest false q f = (q ++ f ∷ [], false)

unfoldable pub push_frame : Subscriber → StreamFrame → List StreamFrame × Bool
push_frame s f = push_at s.policy (leb s.buffer_size (length s.queue)) s.queue f

abbrev pub count_dropped : Bool → String → Map String Counters → Map String Counters
count_dropped false id m = m
count_dropped true id m = elim (get id m) [
  | none ↦ m
  | some c ↦ set id (record c { dropped = c.dropped + 1 }) m
]

-- One round of the loop of `publish`.
unfoldable pub offer : StreamBus → StreamFrame → ℕ → StreamBus
offer b f h = elim (get h b.handles) [
  | none ↦ b
  | some s ↦
      let (queue, dropped) = push_frame s f in
      let counted = record b { stats_map = count_dropped dropped f.stream_id b.stats_map } in
      notify counted h (record s { queue = queue })
]

unfoldable pub fan_out : StreamBus → StreamFrame → List ℕ → StreamBus
fan_out b f [] = b
fan_out b f (h ∷ hs) = fan_out (offer b f h) f hs

pub record PublishOptions : Type 0 where
  pub source_at : Option ℕ
  pub metadata : Option Object

abbrev pub count_published : String → Map String Counters → Map String Counters
count_published id m = elim (get id m) [
  | none ↦ m
  | some c ↦ set id (record c { published = c.published + 1 }) m
]

-- The frame is numbered, kept as the latest one and counted.
unfoldable pub new_frame : StreamBus → String → Json → PublishOptions → ℕ → StreamFrame
new_frame b id payload options now = record {
  stream_id = id;
  sequence = or_default (get id b.sequences) 0;
  source_at = options.source_at;
  at = now;
  payload = payload;
  metadata = options.metadata;
}

unfoldable pub recorded : StreamBus → StreamFrame → StreamBus
recorded b f = record b {
  sequences = set f.stream_id (f.sequence + 1) b.sequences;
  latest_frame = set f.stream_id f b.latest_frame;
  stats_map = count_published f.stream_id b.stats_map;
}

unfoldable pub publish :
    StreamBus → String → Json → PublishOptions → ℕ → StreamBus × Result StreamError StreamFrame
publish b id payload options now =
    let f = new_frame b id payload options now in
    if not (has id b.streams)
    then (b, err (unknown_stream id))
    else (fan_out (recorded b f) f (or_default (get id b.subscribers) []), ok f)

pub record SubscribeOptions : Type 0 where
  pub buffer_size : Option ℕ
  pub policy : Option BackpressurePolicy

abbrev pub new_subscriber : String → SubscribeOptions → Subscriber
new_subscriber id options = record {
  stream_id = id;
  queue = [];
  buffer_size = or_default options.buffer_size 64;
  policy = or_default options.policy drop_oldest;
  waiting = none;
  closed = false;
  done = false;
  ended = false;
}

abbrev pub append_handle : ℕ → String → Map String (List ℕ) → Map String (List ℕ)
append_handle h id m = set id (or_default (get id m) [] ++ h ∷ []) m

unfoldable pub subscribe : StreamBus → String → SubscribeOptions → StreamBus × Result StreamError ℕ
subscribe b id options = if not (has id b.streams) then (b, err (unknown_stream id)) else (
  record b {
    handles = set b.next_handle (new_subscriber id options) b.handles;
    next_handle = b.next_handle + 1;
    subscribers = append_handle b.next_handle id b.subscribers;
    end_signals = append_handle b.next_handle id b.end_signals;
  },
  ok b.next_handle,
)
