-- ===== src/Rap.antt =====
-- packages/rap/src/pendingStore.ts: the calls and threads that survive a restart.
-- The two files are kept as what `JSON.parse` gives of them. A line of the journal that does not
-- parse is `none`, and `tail` is a line that a crash cut off before its newline. Timestamps are not
-- kept: nothing reads the `at` of an entry. A record is what it is when it is handed over: callers
-- that change one store it again.
mod Keyed
pub mod Recovery
pub mod Compaction
pub mod Torn
pub mod Records
mod Examples
use pinout.Prelude.{
  ℕ, ◌+◌, Bool, true, false, not, ◌&&◌, ◌||◌, Option, none, some, List, [], ◌∷◌, ◌++◌, String,
  if◌then◌else◌, ltb, any, keep, length, ◌==◌, string_eq, is_some,
}
use pinout.Prelude.Json.{Object}
use pinout.Prelude.Map.{Map, get, set, delete, values}
use pinout.Rap.Records.{
  Disk, PendingCallRecord, PendingEntry, PendingSnapshot, Tables, ThreadState, accepted, cancelled,
  deleted_call, deleted_thread, delivered, delivering, failed, running, upserted_call,
  upserted_thread,
}

pub record PendingStore : Type 0 where
  pub tables : Tables
  pub journal_lines : ℕ
  pub disk : Disk

abbrev pub put_call : Tables → PendingCallRecord → Tables
put_call t call = record t { calls = set call.key call t.calls }

abbrev pub put_thread : Tables → ThreadState → Tables
put_thread t thread = record t { threads = set thread.group_id thread t.threads }

-- A key that is an empty text is falsy.
unfoldable pub apply : Tables → PendingEntry → Tables
apply t (upserted_call call) = put_call t call
apply t (deleted_call key) = if key == "" then t else record t { calls = delete key t.calls }
apply t (upserted_thread thread) = put_thread t thread
apply t (deleted_thread group_id) =
    if group_id == "" then t else record t { threads = delete group_id t.threads }

unfoldable pub replay : Tables → List (Option PendingEntry) → Tables
replay t [] = t
replay t (none ∷ lines) = replay t lines
replay t (some entry ∷ lines) = replay (apply t entry) lines

abbrev pub put_calls : Tables → List PendingCallRecord → Tables
put_calls t [] = t
put_calls t (call ∷ calls) = put_calls (put_call t call) calls

abbrev pub put_threads : Tables → List ThreadState → Tables
put_threads t [] = t
put_threads t (thread ∷ threads) = put_threads (put_thread t thread) threads

abbrev pub no_tables : Tables
no_tables = record { calls = []; threads = [] }

abbrev pub from_snapshot : Option PendingSnapshot → Tables
from_snapshot none = no_tables
from_snapshot (some s) = put_threads (put_calls no_tables s.calls) s.threads

-- `split('\n')` gives the line without a newline like any other.
abbrev pub journal_lines_of : Disk → List (Option PendingEntry)
journal_lines_of disk = elim disk.tail [
  | none ↦ disk.journal
  | some line ↦ disk.journal ++ line ∷ []
]

-- The constructor, on what the files hold.
unfoldable pub load : Disk → PendingStore
load disk = record {
  tables = replay (from_snapshot disk.snapshot) (journal_lines_of disk);
  journal_lines = length (journal_lines_of disk);
  disk = disk;
}

-- A line that is written behind a tail makes one line with it. It does not parse, not even if the
-- tail does: two objects follow one another.
unfoldable pub write_line : Disk → PendingEntry → Disk
write_line disk entry =
    let line = if is_some disk.tail then none else some entry in
    record disk { journal = disk.journal ++ line ∷ []; tail = none }

abbrev pub append : PendingStore → PendingEntry → PendingStore
append s entry = record s { disk = write_line s.disk entry; journal_lines = s.journal_lines + 1 }

abbrev pub pending_snapshot : Tables → PendingSnapshot
pending_snapshot t = record { calls = values t.calls; threads = values t.threads }

-- The files when `renameSync` has put the new snapshot in its place.
abbrev pub replace_snapshot : PendingStore → Disk
replace_snapshot s = record s.disk { snapshot = some (pending_snapshot s.tables) }

abbrev pub empty_journal : Disk → Disk
empty_journal disk = record disk { journal = []; tail = none }

unfoldable pub compact : PendingStore → PendingStore
compact s = record s { disk = empty_journal (replace_snapshot s); journal_lines = 0 }

unfoldable pub maybe_compact : PendingStore → PendingStore
maybe_compact s = if ltb s.journal_lines 64 then s else compact s

unfoldable pub upsert_call : PendingStore → PendingCallRecord → PendingStore
upsert_call s call =
    maybe_compact (append (record s { tables = put_call s.tables call }) (upserted_call call))

unfoldable pub delete_call : PendingStore → String → PendingStore
delete_call s key =
    let tables = record s.tables { calls = delete key s.tables.calls } in
    maybe_compact (append (record s { tables = tables }) (deleted_call key))

unfoldable pub upsert_thread : PendingStore → ThreadState → PendingStore
upsert_thread s thread =
    maybe_compact
      (append (record s { tables = put_thread s.tables thread }) (upserted_thread thread))

unfoldable pub get_call : PendingStore → String → Option PendingCallRecord
get_call s key = get key s.tables.calls

unfoldable pub list_calls : PendingStore → List PendingCallRecord
list_calls s = values s.tables.calls

unfoldable pub get_thread : PendingStore → String → Option ThreadState
get_thread s group_id = get group_id s.tables.threads

abbrev pub is_open_call : PendingCallRecord → Bool
is_open_call call = elim call.status [
  | accepted ↦ true
  | running ↦ true
  | delivering ↦ true
  | failed ↦ ltb call.delivery_attempts 8
  | delivered ↦ false
  | cancelled ↦ false
]

unfoldable pub list_open_calls : PendingStore → List PendingCallRecord
list_open_calls s = keep is_open_call (list_calls s)

abbrev pub new_thread : String → ThreadState
new_thread group_id = record {
  group_id = group_id;
  device_ids = [];
  lease_ids = [];
  pending_keys = [];
  closed = false;
}

unfoldable pub ensure_thread : PendingStore → String → PendingStore × ThreadState
ensure_thread s group_id = elim (get group_id s.tables.threads) [
  | some thread ↦ (s, thread)
  | none ↦ (upsert_thread s (new_thread group_id), new_thread group_id)
]

-- `ids.includes(id)`
abbrev pub includes_id : String → List String → Bool
includes_id id ids = any (λ i. i == id) ids

-- The thread that the map holds is changed in place and stored again at once.
unfoldable pub note_device : PendingStore → String → String → PendingStore
note_device s group_id device_id =
    let (next, thread) = ensure_thread s group_id in
    if includes_id device_id thread.device_ids
    then next
    else upsert_thread next record thread { device_ids = thread.device_ids ++ device_id ∷ [] }

unfoldable pub note_lease : PendingStore → String → String → PendingStore
note_lease s group_id lease_id =
    let (next, thread) = ensure_thread s group_id in
    if includes_id lease_id thread.lease_ids
    then next
    else upsert_thread next record thread { lease_ids = thread.lease_ids ++ lease_id ∷ [] }

unfoldable pub remove_lease : PendingStore → String → String → PendingStore
remove_lease s group_id lease_id =
    let (next, thread) = ensure_thread s group_id in
    let left = keep (λ id. not (id == lease_id)) thread.lease_ids in
    upsert_thread next record thread { lease_ids = left }

unfoldable pub note_pending_key : PendingStore → String → String → PendingStore
note_pending_key s group_id key =
    let (next, thread) = ensure_thread s group_id in
    if includes_id key thread.pending_keys
    then next
    else upsert_thread next record thread { pending_keys = thread.pending_keys ++ key ∷ [] }

unfoldable pub mark_thread_closed : PendingStore → String → PendingStore
mark_thread_closed s group_id =
    let (next, thread) = ensure_thread s group_id in
    upsert_thread next record thread { closed = true }

-- Calls of the store's methods.
pub data StoreCall : Type 0 where
  upserts_call : PendingCallRecord → StoreCall
  deletes_call : String → StoreCall
  upserts_thread : ThreadState → StoreCall
  ensures_thread marks_closed : String → StoreCall
  notes_device notes_lease removes_lease notes_pending_key : String → String → StoreCall
  compacts : StoreCall

abbrev pub store_step : PendingStore → StoreCall → PendingStore
store_step s (upserts_call call) = upsert_call s call
store_step s (deletes_call key) = delete_call s key
store_step s (upserts_thread thread) = upsert_thread s thread
store_step s (ensures_thread group_id) = (ensure_thread s group_id).0
store_step s (marks_closed group_id) = mark_thread_closed s group_id
store_step s (notes_device group_id device_id) = note_device s group_id device_id
store_step s (notes_lease group_id lease_id) = note_lease s group_id lease_id
store_step s (removes_lease group_id lease_id) = remove_lease s group_id lease_id
store_step s (notes_pending_key group_id key) = note_pending_key s group_id key
store_step s compacts = compact s

abbrev pub run_calls : PendingStore → List StoreCall → PendingStore
run_calls s [] = s
run_calls s (call ∷ calls) = run_calls (store_step s call) calls
