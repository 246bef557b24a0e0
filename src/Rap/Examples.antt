-- ===== src/Rap/Examples.antt =====
-- packages/rap/src/pendingStore.ts: a store that is closed and opened again.
use pinout.Prelude.{
  ◌≡◌, refl, true, false, none, some, List, [], ◌∷◌, arith, String, string_eq, ne_of_beq,
}
use pinout.Prelude.Json.{end}
use pinout.Prelude.Map.{get, set, delete}
use pinout.Rap.{
  StoreCall, upserts_call, deletes_call, notes_device, marks_closed, compacts, apply, replay, load,
  write_line, compact, maybe_compact, upsert_call, delete_call, upsert_thread, get_call,
  ensure_thread, note_device, mark_thread_closed, replace_snapshot, run_calls, new_thread,
  list_open_calls, list_calls, get_thread,
}
use pinout.Rap.Records.{PendingCallRecord, upserted_call, Disk, running}
use pinout.Rap.Recovery.{load-run_calls}
use pinout.Rap.Compaction.{load-replace_snapshot}
use pinout.Rap.Torn.{torn_line_swallows_next}

abbrev call_of : String → PendingCallRecord
call_of key = record {
  key = key;
  group_id = "g";
  id = "1";
  call_id = none;
  callback_url = "http://agent";
  operation = "servo.move";
  arguments = end;
  status = running;
  daemon_operation_id = none;
  result_text = none;
  delivery_attempts = 0;
  created_at = 5;
  updated_at = 5;
  device_ids = [];
  lease_ids = [];
  is_cancelled = false;
}

abbrev files : Disk
files = record {
  snapshot = none;
  journal = some (upserted_call (call_of "a")) ∷ none ∷ [];
  tail = none;
}

abbrev some_calls : List StoreCall
some_calls =
    upserts_call (call_of "b")
    ∷ notes_device "g" "servo"
    ∷ compacts
    ∷ deletes_call "a"
    ∷ notes_device "g" "servo"
    ∷ marks_closed "g"
    ∷ []

keeps_open_call : list_open_calls (run_calls (load files) some_calls) ≡ call_of "b" ∷ []
unfolding list_open_calls list_calls load replay apply upsert_call maybe_compact write_line
    note_device ensure_thread upsert_thread compact delete_call mark_thread_closed get set delete
keeps_open_call = refl

closes_thread :
    get_thread (run_calls (load files) some_calls) "g"
    ≡ some (record (new_thread "g") { device_ids = "servo" ∷ []; closed = true })
unfolding get_thread load replay apply upsert_call maybe_compact write_line note_device
    ensure_thread upsert_thread compact delete_call mark_thread_closed get set delete
closes_thread = refl

load-run_calls_example :
    (load (run_calls (load files) some_calls).disk).tables
    ≡ (run_calls (load files) some_calls).tables
load-run_calls_example =
    load-run_calls files some_calls refl (tt, (tt, (tt, (ne_of_beq "a" "" refl, (tt, (tt, tt))))))

load-replace_snapshot_example :
    (get "b" (load (replace_snapshot (run_calls (load files) some_calls))).tables.calls
      ≡ get "b" (run_calls (load files) some_calls).tables.calls)
    × (get "b" (load (replace_snapshot (run_calls (load files) some_calls))).tables.threads
        ≡ get "b" (run_calls (load files) some_calls).tables.threads)
load-replace_snapshot_example =
    load-replace_snapshot files some_calls "b" refl
      (tt, (tt, (tt, (ne_of_beq "a" "" refl, (tt, (tt, tt))))))

abbrev cut_off : Disk
cut_off = record files { tail = some (some (upserted_call (call_of "c"))) }

torn_line_swallows_next_example :
    (get_call (upsert_call (load cut_off) (call_of "b")) "b" ≡ some (call_of "b"))
    × ((load (upsert_call (load cut_off) (call_of "b")).disk).tables ≡ (load files).tables)
torn_line_swallows_next_example =
    torn_line_swallows_next cut_off (some (upserted_call (call_of "c"))) (call_of "b") refl
      (omega arith)
