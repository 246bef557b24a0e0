-- ===== src/Rap/Records.antt =====
-- packages/rap/src/types.ts and pendingStore.ts: what is kept of calls and threads.
use pinout.Prelude.{ℕ, Bool, Option, List, String, string_eq}
use pinout.Prelude.Json.{Object}
use pinout.Prelude.Map.{Map}

pub data PendingCallStatus : Type 0 where
  accepted running delivering delivered failed cancelled : PendingCallStatus

pub record PendingCallRecord : Type 0 where
  pub key : String
  pub group_id : String
  pub id : String
  pub call_id : Option String
  pub callback_url : String
  pub operation : String
  pub arguments : Object
  pub status : PendingCallStatus
  pub daemon_operation_id : Option String
  pub result_text : Option String
  pub delivery_attempts : ℕ
  pub created_at : ℕ
  pub updated_at : ℕ
  pub device_ids : List String
  pub lease_ids : List String
  pub is_cancelled : Bool

pub record ThreadState : Type 0 where
  pub group_id : String
  pub device_ids : List String
  pub lease_ids : List String
  pub pending_keys : List String
  pub closed : Bool

pub data PendingEntry : Type 0 where
  upserted_call : PendingCallRecord → PendingEntry
  deleted_call : String → PendingEntry
  upserted_thread : ThreadState → PendingEntry
  deleted_thread : String → PendingEntry

pub record Tables : Type 0 where
  pub calls : Map String PendingCallRecord
  pub threads : Map String ThreadState

pub record PendingSnapshot : Type 0 where
  pub calls : List PendingCallRecord
  pub threads : List ThreadState

-- The journal and the snapshot, which is `none` if it is missing or does not parse. `tail` is the
-- last line of the journal if a crash left it without its newline: `some none` if it does not parse,
-- and its entry if only the newline is missing.
pub record Disk : Type 0 where
  pub snapshot : Option PendingSnapshot
  pub journal : List (Option PendingEntry)
  pub tail : Option (Option PendingEntry)
