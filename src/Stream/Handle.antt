-- ===== src/Stream/Handle.antt =====
-- streamBus.ts: the handle that `subscribe` returns, `closeStream` and `stats`.
use pinout.Prelude.{
  ℕ, true, Option, none, some, List, [], ◌∷◌, String, string_eq, nat_eq, if◌then◌else◌, or_default,
  length,
}
use pinout.Prelude.Map.{get, set, delete}
use pinout.Stream.{StreamBus, finish, resolve, take_frame, notify}
use pinout.Stream.Frames.{StreamFrame, Subscriber}

unfoldable pub next_at : StreamBus → ℕ → Subscriber → ℕ → List StreamFrame → StreamBus
next_at b h s promise (f ∷ fs) = take_frame b h s promise (f ∷ fs)
next_at b h s promise [] =
    if s.closed
    then resolve (finish b h s) promise none
    else record b { handles = set h (record s { waiting = some promise }) b.handles }

-- `next` of an iterator, which is also the round of `sample`.
unfoldable pub next : StreamBus → ℕ → ℕ → StreamBus
next b h promise = elim (get h b.handles) [
  | none ↦ b
  | some s ↦ if s.done then resolve b promise none else next_at b h s promise s.queue
]

-- `finish` of the handle as it is now.
unfoldable pub finish_handle : StreamBus → ℕ → StreamBus
finish_handle b h = elim (get h b.handles) [ none ↦ b | some s ↦ finish b h s ]

-- `close` of a handle, and `return` of its iterator.
unfoldable pub close : StreamBus → ℕ → StreamBus
close b h = elim (get h b.handles) [
  | none ↦ b
  | some s ↦ finish_handle (notify b h (record s { closed = true })) h
]

-- The loop of `closeStream` over the end signals.
unfoldable pub end_all : StreamBus → List ℕ → StreamBus
end_all b [] = b
end_all b (h ∷ hs) = elim (get h b.handles) [
  | none ↦ end_all b hs
  | some s ↦ end_all (record b { handles = set h (record s { ended = true }) b.handles }) hs
]

-- The loop of `closeStream` over the subscribers.
unfoldable pub close_all : StreamBus → List ℕ → StreamBus
close_all b [] = b
close_all b (h ∷ hs) = elim (get h b.handles) [
  | none ↦ close_all b hs
  | some s ↦ close_all (notify b h (record s { closed = true })) hs
]

unfoldable pub close_stream : StreamBus → String → StreamBus
close_stream b id =
    let signalled = end_all b (or_default (get id b.end_signals) []) in
    let silent = record signalled { end_signals = delete id signalled.end_signals } in
    elim (get id silent.subscribers) [
      | none ↦ silent
      | some hs ↦
          let closed = close_all silent hs in
          record closed { subscribers = set id [] closed.subscribers }
    ]

pub record StreamStats : Type 0 where
  pub published_frames : ℕ
  pub dropped_frames : ℕ
  pub subscribers : ℕ

unfoldable pub stats : StreamBus → String → Option StreamStats
stats b id = elim (get id b.stats_map) [
  | none ↦ none
  | some c ↦ some (record {
    published_frames = c.published;
    dropped_frames = c.dropped;
    subscribers = length (or_default (get id b.subscribers) []);
  })
]
