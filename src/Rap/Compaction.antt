-- ===== src/Rap/Compaction.antt =====
-- packages/rap/src/pendingStore.ts: a crash in the middle of a compaction.
use pinout.Prelude.{
  ◌≡◌, refl, sym, ap, subst, ◌∙◌, Option, none, some, List, [], ◌∷◌, arith, String, if◌then◌else◌,
  ◌==◌, string_eq, inl, inr, Bool-cases, Option-cases, All, eq_of_beq, ne_of_beq,
}
use mathlib.Core.Logic.{◌⊎◌}
use pinout.Prelude.Map.{
  Map, get, set, delete, get-set_self, get-set_ne, get-delete_self, get-delete_ne,
}
use pinout.Rap.{
  PendingStore, apply, replay, replace_snapshot, from_snapshot, load, pending_snapshot, StoreCall,
  run_calls,
}
use pinout.Rap.Records.{
  PendingCallRecord, ThreadState, PendingEntry, upserted_call, deleted_call, upserted_thread,
  deleted_thread, Tables, Disk,
}
use pinout.Rap.Keyed.{from_snapshot-pending_snapshot}
use pinout.Rap.Recovery.{
  NamesKey, IsRecoverable, load-IsRecoverable, load-restored, run_calls-IsRecoverable,
}

-- What entries do to the value under one key: nothing, or whatever was there, they leave this.
module _ {V : Type 0} (effect : PendingEntry → Option (Option V)) where
  abbrev changed : Option V → Option (Option V) → Option V
  changed before none = before
  changed before (some value) = value

  abbrev fold_effects : Option V → List (Option PendingEntry) → Option V
  fold_effects o [] = o
  fold_effects o (none ∷ lines) = fold_effects o lines
  fold_effects o (some entry ∷ lines) = fold_effects (changed o (effect entry)) lines

  abbrev IsConstantOrNothing : List (Option PendingEntry) → Type 0
  IsConstantOrNothing lines =
      ((o : Option V) → fold_effects o lines ≡ o)
      ⊎ ((v : Option V) × ((o : Option V) → fold_effects o lines ≡ v))

  fold_effects-cases : (lines : List (Option PendingEntry)) → IsConstantOrNothing lines
  fold_effects-cases [] = inl (λ o. refl)
  fold_effects-cases (none ∷ lines) = fold_effects-cases lines
  fold_effects-cases (some entry ∷ lines) = elim (fold_effects-cases lines) [
    | inr (v, c) ↦ inr (v, λ o. c (changed o (effect entry)))
    | inl same ↦ elim (Option-cases (effect entry)) [
      | inl e ↦ inl (λ o. same (changed o (effect entry)) ∙ ap (changed o) e)
      | inr (v, e) ↦ inr (v, λ o. same (changed o (effect entry)) ∙ ap (changed o) e)
    ]
  ]

  -- Entries that are replayed twice do what they did once.
  fold_effects-twice :
      (o : Option V) (lines : List (Option PendingEntry))
      → fold_effects (fold_effects o lines) lines ≡ fold_effects o lines
  fold_effects-twice o lines = elim (fold_effects-cases lines) [
    | inl same ↦ same (fold_effects o lines)
    | inr (v, c) ↦ c (fold_effects o lines) ∙ sym (c o)
  ]

abbrev on_call : String → PendingEntry → Option (Option PendingCallRecord)
on_call k (upserted_call call) = if call.key == k then some (some call) else none
on_call k (deleted_call key) = if key == "" then none else if key == k then some none else none
on_call k (upserted_thread thread) = none
on_call k (deleted_thread group_id) = none

abbrev on_thread : String → PendingEntry → Option (Option ThreadState)
on_thread k (upserted_call call) = none
on_thread k (deleted_call key) = none
on_thread k (upserted_thread thread) = if thread.group_id == k then some (some thread) else none
on_thread k (deleted_thread group_id) =
    if group_id == "" then none else if group_id == k then some none else none

module _ {V : Type 0} where
  get-set :
      (k key : String) (v : V) (m : Map String V)
      → get k (set key v m) ≡ (if key == k then some v else get k m)
  get-set k key v m = elim (Bool-cases (key == k)) [
    | inl t ↦
        rw (t)
          (subst (λ x. get x (set key v m) ≡ some v) (eq_of_beq key k t) (get-set_self key v m))
    | inr n ↦ rw (n) (get-set_ne key k v m (ne_of_beq key k n))
  ]

  get-delete :
      (k key : String) (m : Map String V)
      → get k (delete key m) ≡ (if key == k then none else get k m)
  get-delete k key m = elim (Bool-cases (key == k)) [
    | inl t ↦
        rw (t)
          (subst (λ x. get x (delete key m) ≡ none) (eq_of_beq key k t) (get-delete_self key m))
    | inr n ↦ rw (n) (get-delete_ne key k m (ne_of_beq key k n))
  ]

get-apply_calls :
    (k : String) (t : Tables) (entry : PendingEntry)
    → get k (apply t entry).calls ≡ changed (on_call k) (get k t.calls) (on_call k entry)
unfolding apply
get-apply_calls k t (upserted_call c) = ground (arith, get-set k c.key c t.calls)
get-apply_calls k t (deleted_call key) = ground (arith, get-delete k key t.calls)
get-apply_calls k t (upserted_thread x) = refl
get-apply_calls k t (deleted_thread key) = ground arith

get-apply_threads :
    (k : String) (t : Tables) (entry : PendingEntry)
    → get k (apply t entry).threads ≡ changed (on_thread k) (get k t.threads) (on_thread k entry)
unfolding apply
get-apply_threads k t (upserted_call c) = refl
get-apply_threads k t (deleted_call key) = ground arith
get-apply_threads k t (upserted_thread x) = ground (arith, get-set k x.group_id x t.threads)
get-apply_threads k t (deleted_thread key) = ground (arith, get-delete k key t.threads)

get-replay_calls :
    (k : String) (t : Tables) (lines : List (Option PendingEntry))
    → get k (replay t lines).calls ≡ fold_effects (on_call k) (get k t.calls) lines
unfolding replay
get-replay_calls k t [] = refl
get-replay_calls k t (none ∷ lines) = get-replay_calls k t lines
get-replay_calls k t (some e ∷ lines) =
    get-replay_calls k (apply t e) lines
    ∙ ap (λ o. fold_effects (on_call k) o lines) (get-apply_calls k t e)

get-replay_threads :
    (k : String) (t : Tables) (lines : List (Option PendingEntry))
    → get k (replay t lines).threads ≡ fold_effects (on_thread k) (get k t.threads) lines
unfolding replay
get-replay_threads k t [] = refl
get-replay_threads k t (none ∷ lines) = get-replay_threads k t lines
get-replay_threads k t (some e ∷ lines) =
    get-replay_threads k (apply t e) lines
    ∙ ap (λ o. fold_effects (on_thread k) o lines) (get-apply_threads k t e)

replayed_twice :
    (k : String) (t : Tables) (lines : List (Option PendingEntry))
    → (get k (replay (replay t lines) lines).calls ≡ get k (replay t lines).calls)
      × (get k (replay (replay t lines) lines).threads ≡ get k (replay t lines).threads)
replayed_twice k t lines =
    let calls = get-replay_calls k t lines in
    let threads = get-replay_threads k t lines in
    (
      get-replay_calls k (replay t lines) lines
          ∙ ap (λ o. fold_effects (on_call k) o lines) calls
          ∙ fold_effects-twice (on_call k) (get k t.calls) lines
          ∙ sym calls,
      get-replay_threads k (replay t lines) lines
          ∙ ap (λ o. fold_effects (on_thread k) o lines) threads
          ∙ fold_effects-twice (on_thread k) (get k t.threads) lines
          ∙ sym threads,
    )

abbrev HasSame : Tables → Tables → Type 0
HasSame t u = (k : String) → (get k t.calls ≡ get k u.calls) × (get k t.threads ≡ get k u.threads)

interrupted_compact :
    (s : PendingStore) → IsRecoverable s → HasSame (load (replace_snapshot s)).tables s.tables
interrupted_compact s r =
    let base = from_snapshot s.disk.snapshot in
    let found : replay (from_snapshot (some (pending_snapshot s.tables))) s.disk.journal
        ≡ replay (replay base s.disk.journal) s.disk.journal =
      ap (λ t. replay t s.disk.journal)
        (from_snapshot-pending_snapshot s.tables r.keyed ∙ sym r.holds) in
    subst (λ t. HasSame t s.tables) (sym (load-restored (replace_snapshot s) r.whole ∙ found))
      (subst (λ t. HasSame (replay (replay base s.disk.journal) s.disk.journal) t) r.holds
        (λ k. replayed_twice k base s.disk.journal))

-- After any calls on a store that was loaded from files without a torn line, a crash in the middle
-- of a compaction, with the new snapshot in its place and the journal not yet emptied, loses
-- nothing: a restart finds each call and each thread that the store held, and no other. No call may
-- delete under the empty key.
pub load-replace_snapshot :
    (disk : Disk) (calls : List StoreCall) (key : String)
    → disk.tail ≡ none
    → All NamesKey calls
    → (get key (load (replace_snapshot (run_calls (load disk) calls))).tables.calls
        ≡ get key (run_calls (load disk) calls).tables.calls)
      × (get key (load (replace_snapshot (run_calls (load disk) calls))).tables.threads
          ≡ get key (run_calls (load disk) calls).tables.threads)
load-replace_snapshot disk calls key h n =
    interrupted_compact (run_calls (load disk) calls)
      (run_calls-IsRecoverable (load disk) calls n (load-IsRecoverable disk h)) key
