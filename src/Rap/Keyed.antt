-- ===== src/Rap/Keyed.antt =====
-- packages/rap/src/pendingStore.ts: calls and threads stand under their own keys, and a snapshot
-- gives them back.
use pinout.Prelude.{
  ◌≡◌, refl, sym, ap, subst, ◌∙◌, false, Option, none, some, List, [], ◌∷◌, ◌++◌, arith, String,
  ◌==◌, string_eq, inl, inr, Bool-cases, All, eq_of_beq, ne_of_beq,
}
use mathlib.Core.List.{append-nil, append_assoc}
use pinout.Prelude.Map.{Map, get, set, delete, values}
use pinout.Prelude.Map.Laws.{
  DistinctKeys, set-DistinctKeys, delete-DistinctKeys, All-set_entry, All-delete_entry,
}
use pinout.Rap.{
  put_call, put_thread, apply, replay, put_calls, put_threads, no_tables, from_snapshot,
  pending_snapshot,
}
use pinout.Rap.Records.{
  PendingCallRecord, ThreadState, PendingEntry, upserted_call, deleted_call, upserted_thread,
  deleted_thread, Tables, PendingSnapshot,
}

module _ {V : Type 0} (name : V → String) where
  -- Each value stands under its own name.
  abbrev pub IsKeyed : Map String V → Type 0
  IsKeyed m = All (λ e. name e.1 ≡ e.0) m × DistinctKeys m

  set-IsKeyed : (v : V) (m : Map String V) → IsKeyed m → IsKeyed (set (name v) v m)
  set-IsKeyed v m (a, d) =
      (All-set_entry (λ e. name e.1 ≡ e.0) (name v) v m refl a, set-DistinctKeys (name v) v m d)

  delete-IsKeyed : (k : String) (m : Map String V) → IsKeyed m → IsKeyed (delete k m)
  delete-IsKeyed k m (a, d) =
      (All-delete_entry (λ e. name e.1 ≡ e.0) k m a, delete-DistinctKeys k m d)

  abbrev put_values : Map String V → List V → Map String V
  put_values m [] = m
  put_values m (v ∷ vs) = put_values (set (name v) v m) vs

  key_behind :
      (j k : String) (v : V) (before behind : Map String V)
      → get j (before ++ (k, v) ∷ behind) ≡ none
      → (k == j) ≡ false
  unfolding get
  key_behind j k v [] behind h = ground (arith, h)
  key_behind j k v ((i, w) ∷ before) behind h = ground (arith, h, key_behind j k v before behind)

  key_before :
      (k : String) (v : V) (before behind : Map String V)
      → DistinctKeys (before ++ (k, v) ∷ behind)
      → get k before ≡ none
  unfolding get
  key_before k v [] behind d = refl
  key_before k v ((j, w) ∷ before) behind (f, d) = elim (Bool-cases (j == k)) [
    | inl t ↦ absurd (ne_of_beq k j (key_behind j k v before behind f) (sym (eq_of_beq j k t)))
    | inr n ↦ rw (n) (key_before k v before behind d)
  ]

  set_new : (k : String) (v : V) (m : Map String V) → get k m ≡ none → set k v m ≡ m ++ (k, v) ∷ []
  unfolding get set
  set_new k v [] h = refl
  set_new k v ((j, w) ∷ m) h = ground (arith, h, set_new k v m)

  -- Values in the order of a map make that map again.
  put_values-append :
      (before m : Map String V)
      → All (λ e. name e.1 ≡ e.0) m
      → DistinctKeys (before ++ m)
      → put_values before (values m) ≡ before ++ m
  put_values-append before [] h d = sym (append-nil before)
  put_values-append before ((k, v) ∷ m) (e, h) d =
      let here : set (name v) v before ≡ before ++ (k, v) ∷ [] =
        ap (λ n. set n v before) e ∙ set_new k v before (key_before k v before m d) in
      let shifted = append_assoc before ((k, v) ∷ []) m in
      ap (λ x. put_values x (values m)) here
      ∙ put_values-append (before ++ (k, v) ∷ []) m h (subst DistinctKeys (sym shifted) d)
      ∙ shifted

-- Calls and threads stand under their own keys.
abbrev pub AreKeyed : Tables → Type 0
AreKeyed t = IsKeyed (λ c. c.key) t.calls × IsKeyed (λ t. t.group_id) t.threads

put_calls-values :
    (t : Tables) (calls : List PendingCallRecord)
    → put_calls t calls ≡ record t { calls = put_values (λ c. c.key) t.calls calls }
put_calls-values t [] = refl
put_calls-values t (c ∷ cs) = put_calls-values (put_call t c) cs

put_threads-values :
    (t : Tables) (threads : List ThreadState)
    → put_threads t threads ≡ record t { threads = put_values (λ x. x.group_id) t.threads threads }
put_threads-values t [] = refl
put_threads-values t (x ∷ xs) = put_threads-values (put_thread t x) xs

-- A snapshot gives the tables back that it was made of, in their order.
pub from_snapshot-pending_snapshot :
    (t : Tables) → AreKeyed t → from_snapshot (some (pending_snapshot t)) ≡ t
from_snapshot-pending_snapshot t ((a, d), (b, e)) =
    let calls = put_values-append (λ c. c.key) [] t.calls a d in
    let threads = put_values-append (λ x. x.group_id) [] t.threads b e in
    ap (λ x. put_threads x (values t.threads)) (put_calls-values no_tables (values t.calls))
    ∙ put_threads-values _ (values t.threads)
    ∙ ap (λ m. record { calls = m; threads = put_values (λ x. x.group_id) [] (values t.threads) })
        calls
    ∙ ap (λ m. record { calls = t.calls; threads = m }) threads

pub apply-AreKeyed : (t : Tables) (entry : PendingEntry) → AreKeyed t → AreKeyed (apply t entry)
unfolding apply
apply-AreKeyed t (upserted_call c) (h, k) = (set-IsKeyed (λ c. c.key) c t.calls h, k)
apply-AreKeyed t (upserted_thread x) (h, k) = (h, set-IsKeyed (λ x. x.group_id) x t.threads k)
apply-AreKeyed t (deleted_call key) (h, k) = elim (Bool-cases (key == "")) [
  | inl e ↦ rw (e, apply) (h, k)
  | inr n ↦ rw (n, apply) (delete-IsKeyed (λ c. c.key) key t.calls h, k)
]
apply-AreKeyed t (deleted_thread key) (h, k) = elim (Bool-cases (key == "")) [
  | inl e ↦ rw (e, apply) (h, k)
  | inr n ↦ rw (n, apply) (h, delete-IsKeyed (λ x. x.group_id) key t.threads k)
]

pub replay-AreKeyed :
    (t : Tables) (lines : List (Option PendingEntry)) → AreKeyed t → AreKeyed (replay t lines)
unfolding replay
replay-AreKeyed t [] h = h
replay-AreKeyed t (none ∷ lines) h = replay-AreKeyed t lines h
replay-AreKeyed t (some e ∷ lines) h = replay-AreKeyed (apply t e) lines (apply-AreKeyed t e h)

put_calls-AreKeyed :
    (t : Tables) (calls : List PendingCallRecord) → AreKeyed t → AreKeyed (put_calls t calls)
put_calls-AreKeyed t [] h = h
put_calls-AreKeyed t (c ∷ cs) (h, k) =
    put_calls-AreKeyed (put_call t c) cs (set-IsKeyed (λ c. c.key) c t.calls h, k)

put_threads-AreKeyed :
    (t : Tables) (threads : List ThreadState) → AreKeyed t → AreKeyed (put_threads t threads)
put_threads-AreKeyed t [] h = h
put_threads-AreKeyed t (x ∷ xs) (h, k) =
    put_threads-AreKeyed (put_thread t x) xs (h, set-IsKeyed (λ x. x.group_id) x t.threads k)

pub from_snapshot-AreKeyed : (s : Option PendingSnapshot) → AreKeyed (from_snapshot s)
from_snapshot-AreKeyed none = ((tt, tt), (tt, tt))
from_snapshot-AreKeyed (some s) =
    put_threads-AreKeyed (put_calls no_tables s.calls) s.threads
      (put_calls-AreKeyed no_tables s.calls ((tt, tt), (tt, tt)))
