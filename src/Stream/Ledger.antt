-- ===== src/Stream/Ledger.antt =====
-- streamBus.ts: what subscribers do leaves the streams, their numbers and their counters alone.
use pinout.Prelude.{
  ℕ, ◌≡◌, ◌∙◌, refl, Bool, true, false, Option, none, some, List, [], ◌∷◌, String, string_eq,
  nat_eq, Option-cases, inl, inr, if◌then◌else◌, or_default,
}
use pinout.Prelude.Map.{Map, get, set}
use pinout.Stream.{StreamBus, finish, take_frame, notify, notify_at}
use pinout.Stream.Frames.{StreamDescriptor, StreamFrame, Subscriber, Counters}
use pinout.Stream.Handle.{next, next_at, finish_handle, close, end_all, close_all, close_stream}

-- What the bus knows of its streams, apart from their subscribers.
pub record Ledger : Type 0 where
  pub streams : Map String StreamDescriptor
  pub sequences : Map String ℕ
  pub stats_map : Map String Counters

abbrev pub ledger : StreamBus → Ledger
ledger b = record { streams = b.streams; sequences = b.sequences; stats_map = b.stats_map }

either_way :
    {l : Ledger} (t : Bool) (x y : StreamBus)
    → ledger x ≡ l
    → ledger y ≡ l
    → ledger (if t then x else y) ≡ l
either_way true x y p q = p
either_way false x y p q = q

pub ledger-finish : (b : StreamBus) (h : ℕ) (s : Subscriber) → ledger (finish b h s) ≡ ledger b
unfolding finish
ledger-finish b h s = either_way s.done _ _ refl refl

pub ledger-take_frame :
    (b : StreamBus) (h : ℕ) (s : Subscriber) (promise : ℕ) (q : List StreamFrame)
    → ledger (take_frame b h s promise q) ≡ ledger b
unfolding take_frame
ledger-take_frame b h s promise [] =
    either_way s.closed _ _ (ledger-finish (record b { handles = set h s b.handles }) h s) refl
ledger-take_frame b h s promise (f ∷ fs) = refl

pub ledger-notify_at :
    (b : StreamBus) (h : ℕ) (s : Subscriber) (waiting : Option ℕ)
    → ledger (notify_at b h s waiting) ≡ ledger b
unfolding notify_at
ledger-notify_at b h s none = refl
ledger-notify_at b h s (some promise) =
    either_way s.done _ _ refl (ledger-take_frame b h (record s { waiting = none }) promise s.queue)

pub ledger-notify : (b : StreamBus) (h : ℕ) (s : Subscriber) → ledger (notify b h s) ≡ ledger b
unfolding notify
ledger-notify b h s = ledger-notify_at b h s s.waiting

pub ledger-next_at :
    (b : StreamBus) (h : ℕ) (s : Subscriber) (promise : ℕ) (q : List StreamFrame)
    → ledger (next_at b h s promise q) ≡ ledger b
unfolding next_at
ledger-next_at b h s promise [] = either_way s.closed _ _ (ledger-finish b h s) refl
ledger-next_at b h s promise (f ∷ fs) = ledger-take_frame b h s promise (f ∷ fs)

pub ledger-next : (b : StreamBus) (h promise : ℕ) → ledger (next b h promise) ≡ ledger b
unfolding next
ledger-next b h promise = elim (Option-cases (get h b.handles)) [
  | inl e ↦ rw (e, next) refl
  | inr (s, e) ↦ rw (e, next) (either_way s.done _ _ refl (ledger-next_at b h s promise s.queue))
]

pub ledger-finish_handle : (b : StreamBus) (h : ℕ) → ledger (finish_handle b h) ≡ ledger b
unfolding finish_handle
ledger-finish_handle b h = elim (Option-cases (get h b.handles)) [
  | inl e ↦ rw (e, finish_handle) refl
  | inr (s, e) ↦ rw (e, finish_handle) (ledger-finish b h s)
]

pub ledger-close : (b : StreamBus) (h : ℕ) → ledger (close b h) ≡ ledger b
unfolding close
ledger-close b h = elim (Option-cases (get h b.handles)) [
  | inl e ↦ rw (e, close) refl
  | inr (s, e) ↦
      rw (e, close)
        (ledger-finish_handle (notify b h (record s { closed = true })) h
          ∙ ledger-notify b h (record s { closed = true }))
]

pub ledger-close_all : (b : StreamBus) (hs : List ℕ) → ledger (close_all b hs) ≡ ledger b
unfolding close_all
ledger-close_all b [] = refl
ledger-close_all b (h ∷ hs) = elim (Option-cases (get h b.handles)) [
  | inl e ↦ rw (e, close_all) (ledger-close_all b hs)
  | inr (s, e) ↦
      rw (e, close_all)
        (ledger-close_all (notify b h (record s { closed = true })) hs
          ∙ ledger-notify b h (record s { closed = true }))
]

pub ledger-end_all : (b : StreamBus) (hs : List ℕ) → ledger (end_all b hs) ≡ ledger b
unfolding end_all
ledger-end_all b [] = refl
ledger-end_all b (h ∷ hs) = elim (Option-cases (get h b.handles)) [
  | inl e ↦ rw (e, end_all) (ledger-end_all b hs)
  | inr (s, e) ↦
      rw (e, end_all)
        (ledger-end_all (record b { handles = set h (record s { ended = true }) b.handles }) hs)
]

pub ledger-close_stream : (b : StreamBus) (id : String) → ledger (close_stream b id) ≡ ledger b
unfolding close_stream
ledger-close_stream b id =
    let signalled = end_all b (or_default (get id b.end_signals) []) in
    let same = ledger-end_all b (or_default (get id b.end_signals) []) in
    elim (Option-cases (get id signalled.subscribers)) [
      | inl e ↦ rw (e, close_stream) same
      | inr (hs, e) ↦ rw (e, close_stream) (ledger-close_all _ hs ∙ same)
    ]
