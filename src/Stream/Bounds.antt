-- ===== src/Stream/Bounds.antt =====
-- streamBus.ts: the queue of a subscriber stays within its buffer.
use pinout.Prelude.{
  ℕ, ◌+◌, ◌≤◌, ◌≡◌, refl, max, Bool, true, false, not, Option, none, some, List, [], ◌∷◌, ◌++◌,
  String, string_eq, nat_eq, arith, Option-cases, inl, inr, All, length, leb, if◌then◌else◌,
  or_default,
}
use pinout.Prelude.Json.{Json}
use pinout.Prelude.Map.{get, set, has, values}
use pinout.Prelude.Map.Laws.{All-set, All-get}
use pinout.Stream.{
  StreamBus, init, register, finish, take_frame, notify, notify_at, shift, push_at, push_frame,
  offer, fan_out, new_frame, recorded, publish, PublishOptions, SubscribeOptions, new_subscriber,
  subscribe,
}
use pinout.Stream.Frames.{
  StreamDescriptor, StreamFrame, BackpressurePolicy, drop_oldest, drop_latest, latest_only,
  Subscriber,
}
use pinout.Stream.Handle.{next, next_at, finish_handle, close, end_all, close_all, close_stream}
use pinout.Stream.History.{
  Call, registers, publishes, subscribes, takes, closes, closes_stream, step, run,
}

-- At least one frame fits, as `latest-only` and `drop-oldest` always keep the newest one.
abbrev pub Small : Subscriber → Type 0
Small s = length s.queue ≤ max 1 s.buffer_size

abbrev pub Bounded : StreamBus → Type 0
Bounded b = All Small (values b.handles)

module _ (b : StreamBus) (v : Bounded b) (h : ℕ) where
  put-Bounded : (s : Subscriber) → Small s → All Small (values (set h s b.handles))
  put-Bounded s p = All-set Small h s b.handles p v

either_way : (t : Bool) (x y : StreamBus) → Bounded x → Bounded y → Bounded (if t then x else y)
either_way true x y p q = p
either_way false x y p q = q

either_first :
    {A : Type 0} (t : Bool) (x y : StreamBus × A)
    → Bounded x.0
    → Bounded y.0
    → Bounded (if t then x else y).0
either_first true x y p q = p
either_first false x y p q = q

finish-Bounded :
    (b : StreamBus) (h : ℕ) (s : Subscriber) → Bounded b → Small s → Bounded (finish b h s)
unfolding finish
finish-Bounded b h s v p =
    either_way s.done _ _ v (put-Bounded b v h (record s { done = true; ended = true }) p)

take_frame-Bounded :
    (b : StreamBus) (h : ℕ) (s : Subscriber) (promise : ℕ) (q : List StreamFrame)
    → Bounded b
    → Small s
    → length q ≤ max 1 s.buffer_size
    → Bounded (take_frame b h s promise q)
unfolding take_frame
take_frame-Bounded b h s promise [] v p k =
    either_way s.closed _ _
      (finish-Bounded (record b { handles = set h s b.handles }) h s (put-Bounded b v h s p) p)
      (put-Bounded b v h s p)
take_frame-Bounded b h s promise (f ∷ fs) v p k =
    put-Bounded b v h (record s { queue = fs }) (omega arith)

notify_at-Bounded :
    (b : StreamBus) (h : ℕ) (s : Subscriber) (waiting : Option ℕ)
    → Bounded b
    → Small s
    → Bounded (notify_at b h s waiting)
unfolding notify_at
notify_at-Bounded b h s none v p = put-Bounded b v h s p
notify_at-Bounded b h s (some promise) v p =
    let quiet = record s { waiting = none } in
    either_way s.done _ _ (put-Bounded b v h quiet p)
      (take_frame-Bounded b h quiet promise s.queue v p p)

notify-Bounded :
    (b : StreamBus) (h : ℕ) (s : Subscriber) → Bounded b → Small s → Bounded (notify b h s)
unfolding notify
notify-Bounded b h s v p = notify_at-Bounded b h s s.waiting v p

length-append_one : (q : List StreamFrame) (f : StreamFrame) → length (q ++ f ∷ []) ≡ length q + 1
length-append_one [] f = refl
length-append_one (x ∷ q) f = omega (arith, length-append_one q f)

push_at-length :
    (policy : BackpressurePolicy) (most : ℕ) (q : List StreamFrame) (f : StreamFrame)
    → length q ≤ max 1 most
    → length (push_at policy (leb most (length q)) q f).0 ≤ max 1 most
unfolding push_at shift
push_at-length latest_only most q f p = omega arith
push_at-length drop_oldest most [] f p = ground arith
push_at-length drop_oldest most (x ∷ q) f p =
    ground (arith, length-append_one q f, length-append_one (x ∷ q) f)
push_at-length drop_latest most q f p = ground (arith, length-append_one q f)

offer-Bounded : (b : StreamBus) (f : StreamFrame) (h : ℕ) → Bounded b → Bounded (offer b f h)
unfolding offer push_frame
offer-Bounded b f h v = elim (Option-cases (get h b.handles)) [
  | inl e ↦ rw (e, offer) v
  | inr (s, e) ↦
      rw (e, offer)
        (notify-Bounded _ h (record s { queue = (push_frame s f).0 }) v
          (push_at-length s.policy s.buffer_size s.queue f (All-get Small h b.handles v e)))
]

fan_out-Bounded :
    (b : StreamBus) (f : StreamFrame) (hs : List ℕ) → Bounded b → Bounded (fan_out b f hs)
unfolding fan_out
fan_out-Bounded b f [] v = v
fan_out-Bounded b f (h ∷ hs) v = fan_out-Bounded (offer b f h) f hs (offer-Bounded b f h v)

next_at-Bounded :
    (b : StreamBus) (h : ℕ) (s : Subscriber) (promise : ℕ) (q : List StreamFrame)
    → Bounded b
    → Small s
    → length q ≤ max 1 s.buffer_size
    → Bounded (next_at b h s promise q)
unfolding next_at
next_at-Bounded b h s promise [] v p k =
    either_way s.closed _ _ (finish-Bounded b h s v p)
      (put-Bounded b v h (record s { waiting = some promise }) p)
next_at-Bounded b h s promise (f ∷ fs) v p k = take_frame-Bounded b h s promise (f ∷ fs) v p k

next-Bounded : (b : StreamBus) (h promise : ℕ) → Bounded b → Bounded (next b h promise)
unfolding next
next-Bounded b h promise v = elim (Option-cases (get h b.handles)) [
  | inl e ↦ rw (e, next) v
  | inr (s, e) ↦
      let p = All-get Small h b.handles v e in
      rw (e, next) (either_way s.done _ _ v (next_at-Bounded b h s promise s.queue v p p))
]

finish_handle-Bounded : (b : StreamBus) (h : ℕ) → Bounded b → Bounded (finish_handle b h)
unfolding finish_handle
finish_handle-Bounded b h v = elim (Option-cases (get h b.handles)) [
  | inl e ↦ rw (e, finish_handle) v
  | inr (s, e) ↦ rw (e, finish_handle) (finish-Bounded b h s v (All-get Small h b.handles v e))
]

close-Bounded : (b : StreamBus) (h : ℕ) → Bounded b → Bounded (close b h)
unfolding close
close-Bounded b h v = elim (Option-cases (get h b.handles)) [
  | inl e ↦ rw (e, close) v
  | inr (s, e) ↦
      rw (e, close)
        (finish_handle-Bounded _ h
          (notify-Bounded b h (record s { closed = true }) v (All-get Small h b.handles v e)))
]

close_all-Bounded : (b : StreamBus) (hs : List ℕ) → Bounded b → Bounded (close_all b hs)
unfolding close_all
close_all-Bounded b [] v = v
close_all-Bounded b (h ∷ hs) v = elim (Option-cases (get h b.handles)) [
  | inl e ↦ rw (e, close_all) (close_all-Bounded b hs v)
  | inr (s, e) ↦
      rw (e, close_all)
        (close_all-Bounded (notify b h (record s { closed = true })) hs
          (notify-Bounded b h (record s { closed = true }) v (All-get Small h b.handles v e)))
]

end_all-Bounded : (b : StreamBus) (hs : List ℕ) → Bounded b → Bounded (end_all b hs)
unfolding end_all
end_all-Bounded b [] v = v
end_all-Bounded b (h ∷ hs) v = elim (Option-cases (get h b.handles)) [
  | inl e ↦ rw (e, end_all) (end_all-Bounded b hs v)
  | inr (s, e) ↦
      rw (e, end_all)
        (end_all-Bounded (record b { handles = set h (record s { ended = true }) b.handles }) hs
          (put-Bounded b v h (record s { ended = true }) (All-get Small h b.handles v e)))
]

close_stream-Bounded : (b : StreamBus) (id : String) → Bounded b → Bounded (close_stream b id)
unfolding close_stream
close_stream-Bounded b id v =
    let signalled = end_all b (or_default (get id b.end_signals) []) in
    let w : Bounded signalled = end_all-Bounded b (or_default (get id b.end_signals) []) v in
    elim (Option-cases (get id signalled.subscribers)) [
      | inl e ↦ rw (e, close_stream) w
      | inr (hs, e) ↦ rw (e, close_stream) (close_all-Bounded _ hs w)
    ]

publish-Bounded :
    (b : StreamBus) (id : String) (payload : Json) (options : PublishOptions) (now : ℕ)
    → Bounded b
    → Bounded (publish b id payload options now).0
unfolding publish recorded
publish-Bounded b id payload options now v =
    let f = new_frame b id payload options now in
    either_first (not (has id b.streams)) _ _ v
      (fan_out-Bounded (recorded b f) f (or_default (get id b.subscribers) []) v)

subscribe-Bounded :
    (b : StreamBus) (id : String) (options : SubscribeOptions)
    → Bounded b
    → Bounded (subscribe b id options).0
unfolding subscribe
subscribe-Bounded b id options v =
    either_first (not (has id b.streams)) _ _ v
      (put-Bounded b v b.next_handle (new_subscriber id options) (omega arith))

register-Bounded : (b : StreamBus) (d : StreamDescriptor) → Bounded b → Bounded (register b d).0
unfolding register
register-Bounded b d v = either_first (has d.id b.streams) _ _ v v

step-Bounded : (b : StreamBus) (c : Call) → Bounded b → Bounded (step b c)
unfolding step
step-Bounded b (registers d) v = register-Bounded b d v
step-Bounded b (publishes id payload options now) v = publish-Bounded b id payload options now v
step-Bounded b (subscribes id options) v = subscribe-Bounded b id options v
step-Bounded b (takes h promise) v = next-Bounded b h promise v
step-Bounded b (closes h) v = close-Bounded b h v
step-Bounded b (closes_stream id) v = close_stream-Bounded b id v

run-Bounded : (b : StreamBus) (cs : List Call) → Bounded b → Bounded (run b cs)
unfolding run
run-Bounded b [] v = v
run-Bounded b (c ∷ cs) v = run-Bounded (step b c) cs (step-Bounded b c v)

-- No calls on a new bus, however they interleave, make the queue of a subscriber longer than its
-- buffer size, or than one frame for a buffer of size 0, whatever its backpressure policy.
pub run-init-Small :
    (cs : List Call)
    → All (λ s. length s.queue ≤ max 1 s.buffer_size) (values (run init cs).handles)
run-init-Small cs = run-Bounded init cs tt
