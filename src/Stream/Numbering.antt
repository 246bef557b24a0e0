-- ===== src/Stream/Numbering.antt =====
-- streamBus.ts: the counters of `stats` agree with the numbers of the frames.
use pinout.Prelude.{
  ℕ, ◌≡◌, ◌∙◌, refl, sym, ap, subst, Bool, true, false, Option, none, some, List, [], ◌∷◌, String,
  string_eq, nat_eq, arith, Option-cases, Bool-cases, inl, inr, if◌then◌else◌, or_default, is_some,
  ne_of_beq, eq_of_beq, ◌==◌,
}
use pinout.Prelude.Json.{Json}
use pinout.Prelude.Map.{Map, get, set, has, get-set_self, get-set_ne}
use pinout.Stream.{
  StreamBus, init, register, push_frame, offer, fan_out, new_frame, recorded, publish,
  PublishOptions, SubscribeOptions, subscribe, count_dropped, count_published,
}
use pinout.Stream.Frames.{StreamDescriptor, StreamFrame, Counters}
use pinout.Stream.Handle.{StreamStats, stats}
use pinout.Stream.History.{
  Call, registers, publishes, subscribes, takes, closes, closes_stream, step, run,
}
use pinout.Stream.Ledger.{
  Ledger, ledger, ledger-notify, ledger-next, ledger-close, ledger-close_stream,
}

abbrev published_in : Option Counters → ℕ
published_in none = 0
published_in (some c) = c.published

-- The frames counted for a stream are those that were numbered, and a stream is known to the
-- counters exactly when it is registered.
record Agreed (l : Ledger) : Type 0 where
  counted : (id : String) → published_in (get id l.stats_map) ≡ or_default (get id l.sequences) 0
  known : (id : String) → has id l.streams ≡ has id l.stats_map

get-set :
    {V : Type 0} (k i : String) (v : V) (m : Map String V)
    → get i (set k v m) ≡ (if k == i then some v else get i m)
get-set k i v m = elim (Bool-cases (k == i)) [
  | inl t ↦ rw t (ap (λ j. get j (set k v m)) (sym (eq_of_beq k i t)) ∙ get-set_self k v m)
  | inr t ↦ rw t (get-set_ne k i v m (ne_of_beq k i t))
]

count_dropped-published :
    (dropped : Bool) (id i : String) (m : Map String Counters)
    → (published_in (get i (count_dropped dropped id m)) ≡ published_in (get i m))
      × (has i (count_dropped dropped id m) ≡ has i m)
count_dropped-published false id i m = (refl, refl)
count_dropped-published true id i m = elim (Option-cases (get id m)) [
  | inl e ↦ rw (e, count_dropped) (refl, refl)
  | inr (c, e) ↦ elim (Bool-cases (id == i)) [
    | inl t ↦
        let found : get i m ≡ some c = ap (λ j. get j m) (sym (eq_of_beq id i t)) ∙ e in
        rw (e, count_dropped) (rw (get-set id i _ m, t, found) (refl, refl))
    | inr t ↦ rw (e, count_dropped) (rw (get-set id i _ m, t) (refl, refl))
  ]
]

dropped-Agreed :
    (b : StreamBus) (dropped : Bool) (id : String)
    → Agreed (ledger b)
    → Agreed (ledger (record b { stats_map = count_dropped dropped id b.stats_map }))
dropped-Agreed b dropped id a = record {
  counted = λ i. (count_dropped-published dropped id i b.stats_map).0 ∙ a.counted i;
  known = λ i. a.known i ∙ sym (count_dropped-published dropped id i b.stats_map).1;
}

offer-Agreed :
    (b : StreamBus) (f : StreamFrame) (h : ℕ) → Agreed (ledger b) → Agreed (ledger (offer b f h))
unfolding offer
offer-Agreed b f h a = elim (Option-cases (get h b.handles)) [
  | inl e ↦ rw (e, offer) a
  | inr (s, e) ↦
      let (queue, dropped) = push_frame s f in
      let counted = record b { stats_map = count_dropped dropped f.stream_id b.stats_map } in
      rw (e, offer)
        (subst Agreed (sym (ledger-notify counted h (record s { queue = queue })))
          (dropped-Agreed b dropped f.stream_id a))
]

fan_out-Agreed :
    (b : StreamBus) (f : StreamFrame) (hs : List ℕ)
    → Agreed (ledger b)
    → Agreed (ledger (fan_out b f hs))
unfolding fan_out
fan_out-Agreed b f [] a = a
fan_out-Agreed b f (h ∷ hs) a = fan_out-Agreed (offer b f h) f hs (offer-Agreed b f h a)

unknown : (o : Option Counters) → is_some o ≡ false → published_in o ≡ 0
unknown none h = refl
unknown (some c) h = absurd (ground arith)

recorded-Agreed :
    (b : StreamBus) (f : StreamFrame)
    → has f.stream_id b.streams ≡ true
    → f.sequence ≡ or_default (get f.stream_id b.sequences) 0
    → Agreed (ledger b)
    → Agreed (ledger (recorded b f))
unfolding recorded
recorded-Agreed b f k n a = elim (Option-cases (get f.stream_id b.stats_map)) [
  | inl e ↦ absurd (ground (arith, a.known f.stream_id))
  | inr (c, e) ↦
      let ctd : c.published ≡ or_default (get f.stream_id b.sequences) 0 =
        ap published_in (sym e) ∙ a.counted f.stream_id in
      rw (e, count_published)
        (record {
          counted = λ i. elim (Bool-cases (f.stream_id == i)) [
            | inl t ↦
                rw (get-set f.stream_id i _ b.stats_map, get-set f.stream_id i _ b.sequences, t)
                  (omega (arith, n, ctd))
            | inr t ↦
                rw (get-set f.stream_id i _ b.stats_map, get-set f.stream_id i _ b.sequences, t)
                  (a.counted i)
          ];
          known = λ i. elim (Bool-cases (f.stream_id == i)) [
            | inl t ↦
                rw (get-set f.stream_id i _ b.stats_map, t)
                  (ap (λ j. has j b.streams) (sym (eq_of_beq f.stream_id i t)) ∙ k)
            | inr t ↦ rw (get-set f.stream_id i _ b.stats_map, t) (a.known i)
          ];
        })
]

publish-Agreed :
    (b : StreamBus) (id : String) (payload : Json) (options : PublishOptions) (now : ℕ)
    → Agreed (ledger b)
    → Agreed (ledger (publish b id payload options now).0)
unfolding publish new_frame
publish-Agreed b id payload options now a = elim (Bool-cases (has id b.streams)) [
  | inl t ↦
      let f = new_frame b id payload options now in
      rw (t, publish)
        (fan_out-Agreed (recorded b f) f (or_default (get id b.subscribers) [])
          (recorded-Agreed b f t refl a))
  | inr t ↦ rw (t, publish) a
]

register-Agreed :
    (b : StreamBus) (d : StreamDescriptor) → Agreed (ledger b) → Agreed (ledger (register b d).0)
unfolding register
register-Agreed b d a = elim (Bool-cases (has d.id b.streams)) [
  | inl t ↦ rw (t, register) a
  | inr t ↦
      let unseen : or_default (get d.id b.sequences) 0 ≡ 0 =
        sym (a.counted d.id) ∙ unknown (get d.id b.stats_map) (sym (a.known d.id) ∙ t) in
      rw (t, register)
        (record {
          counted = λ i. elim (Bool-cases (d.id == i)) [
            | inl u ↦
                rw (get-set d.id i _ b.stats_map, u)
                  (sym unseen ∙ ap (λ j. or_default (get j b.sequences) 0) (eq_of_beq d.id i u))
            | inr u ↦ rw (get-set d.id i _ b.stats_map, u) (a.counted i)
          ];
          known = λ i. elim (Bool-cases (d.id == i)) [
            | inl u ↦ rw (get-set d.id i _ b.streams, get-set d.id i _ b.stats_map, u) refl
            | inr u ↦ rw (get-set d.id i _ b.streams, get-set d.id i _ b.stats_map, u) (a.known i)
          ];
        })
]

subscribe-ledger :
    (b : StreamBus) (id : String) (options : SubscribeOptions)
    → ledger (subscribe b id options).0 ≡ ledger b
unfolding subscribe
subscribe-ledger b id options = elim (Bool-cases (has id b.streams)) [
  | inl t ↦ rw (t, subscribe) refl
  | inr t ↦ rw (t, subscribe) refl
]

step-Agreed : (b : StreamBus) (c : Call) → Agreed (ledger b) → Agreed (ledger (step b c))
unfolding step
step-Agreed b (registers d) a = register-Agreed b d a
step-Agreed b (publishes id payload options now) a = publish-Agreed b id payload options now a
step-Agreed b (subscribes id options) a = subst Agreed (sym (subscribe-ledger b id options)) a
step-Agreed b (takes h promise) a = subst Agreed (sym (ledger-next b h promise)) a
step-Agreed b (closes h) a = subst Agreed (sym (ledger-close b h)) a
step-Agreed b (closes_stream id) a = subst Agreed (sym (ledger-close_stream b id)) a

run-Agreed : (b : StreamBus) (cs : List Call) → Agreed (ledger b) → Agreed (ledger (run b cs))
unfolding run
run-Agreed b [] a = a
run-Agreed b (c ∷ cs) a = run-Agreed (step b c) cs (step-Agreed b c a)

init-Agreed : Agreed (ledger init)
unfolding get
init-Agreed = record { counted = λ i. refl; known = λ i. refl }

stats-published :
    (b : StreamBus) (id : String) (s : StreamStats)
    → stats b id ≡ some s
    → s.published_frames ≡ published_in (get id b.stats_map)
unfolding stats
stats-published b id s e = elim (Option-cases (get id b.stats_map)) [
  | inl g ↦ absurd (ground arith)
  | inr (c, g) ↦ ground arith
]

-- After any calls on a new bus, the number of published frames that `stats` reports for a stream is
-- the sequence number that its next frame gets: frames are numbered from 0 without a gap, and none
-- goes uncounted.
pub new_frame-stats :
    (cs : List Call) (id : String) (s : StreamStats) (payload : Json) (options : PublishOptions)
    (now : ℕ)
    → stats (run init cs) id ≡ some s
    → (new_frame (run init cs) id payload options now).sequence ≡ s.published_frames
unfolding new_frame
new_frame-stats cs id s payload options now e =
    sym ((run-Agreed init cs init-Agreed).counted id) ∙ sym (stats-published (run init cs) id s e)
