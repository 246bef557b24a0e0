-- ===== src/Rap/Recovery.antt =====
-- packages/rap/src/pendingStore.ts: what the files hold against what the store holds.
use pinout.Prelude.{
  ◌≡◌, ◌≢◌, refl, ap, subst, ◌∙◌, Bool, true, false, Option, none, some, List, [], ◌∷◌, ◌++◌,
  String, if◌then◌else◌, ltb, string_eq, inl, inr, Bool-cases, Option-cases, All, beq_of_ne,
}
use pinout.Prelude.Map.{get, delete}
use pinout.Rap.{
  PendingStore, put_call, put_thread, apply, replay, from_snapshot, journal_lines_of, load,
  write_line, append, compact, maybe_compact, upsert_call, delete_call, upsert_thread,
  ensure_thread, new_thread, note_device, note_lease, remove_lease, note_pending_key,
  mark_thread_closed, StoreCall, upserts_call, deletes_call, upserts_thread, ensures_thread,
  marks_closed, notes_device, notes_lease, removes_lease, notes_pending_key, compacts, store_step,
  run_calls,
}
use pinout.Rap.Records.{
  PendingCallRecord, ThreadState, PendingEntry, upserted_call, deleted_call, upserted_thread,
  Tables, Disk,
}
use pinout.Rap.Keyed.{
  AreKeyed, from_snapshot-pending_snapshot, apply-AreKeyed, replay-AreKeyed, from_snapshot-AreKeyed,
}

replay-append :
    (t : Tables) (lines : List (Option PendingEntry)) (entry : PendingEntry)
    → replay t (lines ++ some entry ∷ []) ≡ apply (replay t lines) entry
unfolding replay
replay-append t [] entry = refl
replay-append t (none ∷ lines) entry = replay-append t lines entry
replay-append t (some e ∷ lines) entry = replay-append (apply t e) lines entry

abbrev pub restored : Disk → Tables
restored disk = replay (from_snapshot disk.snapshot) disk.journal

-- The files hold the tables, and no line is cut off.
pub record IsRecoverable (s : PendingStore) : Type 0 where
  pub holds : restored s.disk ≡ s.tables
  pub keyed : AreKeyed s.tables
  pub whole : s.disk.tail ≡ none

pub load-restored : (disk : Disk) → disk.tail ≡ none → (load disk).tables ≡ restored disk
unfolding load
load-restored disk h = rw h refl

pub load-IsRecoverable : (disk : Disk) → disk.tail ≡ none → IsRecoverable (load disk)
unfolding load
load-IsRecoverable disk h = record {
  holds = rw h refl;
  keyed =
      replay-AreKeyed (from_snapshot disk.snapshot) (journal_lines_of disk)
        (from_snapshot-AreKeyed disk.snapshot);
  whole = h;
}

compact-IsRecoverable : (s : PendingStore) → IsRecoverable s → IsRecoverable (compact s)
unfolding compact replay
compact-IsRecoverable s r = record {
  holds = from_snapshot-pending_snapshot s.tables r.keyed;
  keyed = r.keyed;
  whole = refl;
}

maybe_compact-IsRecoverable : (s : PendingStore) → IsRecoverable s → IsRecoverable (maybe_compact s)
unfolding maybe_compact
maybe_compact-IsRecoverable s r = elim (Bool-cases (ltb s.journal_lines 64)) [
  | inl t ↦ rw (t, maybe_compact) r
  | inr f ↦ rw (f, maybe_compact) (compact-IsRecoverable s r)
]

-- A change of the tables that is written as the entry that stands for it.
append-IsRecoverable :
    (s : PendingStore) (entry : PendingEntry) (tables : Tables)
    → apply s.tables entry ≡ tables
    → IsRecoverable s
    → IsRecoverable (append (record s { tables = tables }) entry)
unfolding write_line
append-IsRecoverable s entry tables e r =
    rw (r.whole, write_line)
      record {
        holds =
            replay-append (from_snapshot s.disk.snapshot) s.disk.journal entry
            ∙ ap (λ t. apply t entry) r.holds
            ∙ e;
        keyed = subst AreKeyed e (apply-AreKeyed s.tables entry r.keyed);
        whole = refl;
      }

upsert_call-IsRecoverable :
    (s : PendingStore) (call : PendingCallRecord)
    → IsRecoverable s
    → IsRecoverable (upsert_call s call)
unfolding upsert_call apply
upsert_call-IsRecoverable s call r =
    maybe_compact-IsRecoverable _
      (append-IsRecoverable s (upserted_call call) (put_call s.tables call) refl r)

upsert_thread-IsRecoverable :
    (s : PendingStore) (thread : ThreadState)
    → IsRecoverable s
    → IsRecoverable (upsert_thread s thread)
unfolding upsert_thread apply
upsert_thread-IsRecoverable s thread r =
    maybe_compact-IsRecoverable _
      (append-IsRecoverable s (upserted_thread thread) (put_thread s.tables thread) refl r)

delete_call-IsRecoverable :
    (s : PendingStore) (key : String)
    → key ≢ ""
    → IsRecoverable s
    → IsRecoverable (delete_call s key)
unfolding delete_call apply
delete_call-IsRecoverable s key h r =
    let tables : Tables = record s.tables { calls = delete key s.tables.calls } in
    let applied : apply s.tables (deleted_call key) ≡ tables =
      rw (beq_of_ne key "" h, apply) refl in
    maybe_compact-IsRecoverable _ (append-IsRecoverable s (deleted_call key) tables applied r)

ensure_thread-IsRecoverable :
    (s : PendingStore) (group_id : String)
    → IsRecoverable s
    → IsRecoverable (ensure_thread s group_id).0
unfolding ensure_thread
ensure_thread-IsRecoverable s group_id r = elim (Option-cases (get group_id s.tables.threads)) [
  | inl n ↦ rw (n, ensure_thread) (upsert_thread-IsRecoverable s (new_thread group_id) r)
  | inr (thread, e) ↦ rw (e, ensure_thread) r
]

-- The thread is stored again unless it has what it is to note.
noted-IsRecoverable :
    (s : PendingStore) (known : Bool) (thread : ThreadState)
    → IsRecoverable s
    → IsRecoverable (if known then s else upsert_thread s thread)
noted-IsRecoverable s true thread r = r
noted-IsRecoverable s false thread r = upsert_thread-IsRecoverable s thread r

-- A call that deletes names a key that is not empty.
abbrev pub NamesKey : StoreCall → Type 0
NamesKey (deletes_call key) = key ≢ ""
NamesKey _ = Unit

store_step-IsRecoverable :
    (s : PendingStore) (call : StoreCall)
    → NamesKey call
    → IsRecoverable s
    → IsRecoverable (store_step s call)
unfolding note_device note_lease remove_lease note_pending_key mark_thread_closed
store_step-IsRecoverable s (upserts_call call) h r = upsert_call-IsRecoverable s call r
store_step-IsRecoverable s (deletes_call key) h r = delete_call-IsRecoverable s key h r
store_step-IsRecoverable s (upserts_thread thread) h r = upsert_thread-IsRecoverable s thread r
store_step-IsRecoverable s (ensures_thread g) h r = ensure_thread-IsRecoverable s g r
store_step-IsRecoverable s (marks_closed g) h r =
    upsert_thread-IsRecoverable _ _ (ensure_thread-IsRecoverable s g r)
store_step-IsRecoverable s (removes_lease g l) h r =
    upsert_thread-IsRecoverable _ _ (ensure_thread-IsRecoverable s g r)
store_step-IsRecoverable s (notes_device g d) h r =
    noted-IsRecoverable _ _ _ (ensure_thread-IsRecoverable s g r)
store_step-IsRecoverable s (notes_lease g l) h r =
    noted-IsRecoverable _ _ _ (ensure_thread-IsRecoverable s g r)
store_step-IsRecoverable s (notes_pending_key g k) h r =
    noted-IsRecoverable _ _ _ (ensure_thread-IsRecoverable s g r)
store_step-IsRecoverable s compacts h r = compact-IsRecoverable s r

pub run_calls-IsRecoverable :
    (s : PendingStore) (calls : List StoreCall)
    → All NamesKey calls
    → IsRecoverable s
    → IsRecoverable (run_calls s calls)
run_calls-IsRecoverable s [] h r = r
run_calls-IsRecoverable s (c ∷ cs) (n, h) r =
    run_calls-IsRecoverable (store_step s c) cs h (store_step-IsRecoverable s c n r)

-- After any calls on a store that was loaded from files without a torn line, a restart finds the
-- calls and threads that the store holds, in their order, however often it was compacted in
-- between. No call may delete under the empty key.
pub load-run_calls :
    (disk : Disk) (calls : List StoreCall)
    → disk.tail ≡ none
    → All NamesKey calls
    → (load (run_calls (load disk) calls).disk).tables ≡ (run_calls (load disk) calls).tables
load-run_calls disk calls h n =
    let r = run_calls-IsRecoverable (load disk) calls n (load-IsRecoverable disk h) in
    load-restored _ r.whole ∙ r.holds
