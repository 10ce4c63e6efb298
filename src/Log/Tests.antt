-- ===== src/Log/Tests.antt =====
-- Runs of the log, and its theorems at concrete inputs.
mod Claims
use mathlib.Core.List.{Memᴰ}
use mathlib.Core.Path.{subst}
use hot_mem.Prelude.{
  ℕ, String, ◌≡◌, ◌≢◌, refl, ap, inl, inr, ◌≤◌, Bool, true, false, Option, none, some, List, [],
  ◌∷◌, map, Result, ok, err, arith, ◌=ₛ◌, if◌then◌else◌,
}
use hot_mem.Prelude.Strings.{strip, is_space, str_len, is_blank, ne_of_eq-false}
use hot_mem.Prelude.Membership.{Memᴰ-cons}
use hot_mem.Json.{Value, str, num, bool, Fields, end, field, get, has, put, truthy}
use hot_mem.Policy.Platform.{Platform}
use hot_mem.Delta.Store.{Row, get_memory}
use hot_mem.Events.Types.{Rules}
use hot_mem.Events.Target.{TombRow, constraint, delete_memory_row}
use hot_mem.Events.Image.{strip_envelope_keys}
use hot_mem.Events.Candidates.{safe_record_fingerprint}
use hot_mem.Log.Tables.{
  LogRow, Database, Tombstone, event_at_seq, event_log_bounds, insert_event, get_tombstone,
  put_tombstone, with_event, delete_tombstones, list_tombstones, has_events_at_or_before_seq,
}
use hot_mem.Log.Trim.{delete_events, trim_events_before_seq, trim_events_by_count}
use hot_mem.Log.Compact.{
  CompactRequest, Compaction, check_candidate, check_candidates, remove_candidates, compact_listed,
  compact_tombstones, events_not_trimmed_through_tombstone,
}
use hot_mem.Log.Cursor.Types.{
  ReplayCursor, clean_types, normalize_event_types, check_position, post_init, stale_base,
}
use hot_mem.Log.Cursor.{
  Identity, check_issuer, check_scope, check_reach, check_window, validate_replay_cursor,
  effective_replay_event_types,
}
use hot_mem.Log.Stream.{matches, query_events, stream_pages, asked_for, replay, replay_after}
use hot_mem.Log.Ledger.{get_operation_ledger, get_operation_ledger_for_memory, put_operation_ledger}
use hot_mem.Log.Append.{Origin, Host, Entry, stored_payload, append_event, event_fields}
use hot_mem.Log.Delete.{
  DeleteRequest, failed, already_deleted, not_found, build_memory_deleted_payload, delete_body,
  delete_on_connection, delete_memory_record,
}
use hot_mem.Log.Compact.Safe.{Removable, compact_tombstones-Removable}
use hot_mem.Log.Delete.Retry.{delete_memory_record_retry}
use hot_mem.Log.Delete.Burial.{
  Buried, delete_memory_record-Buried, delete_memory_record_atomic, delete_memory_record_others,
}
use hot_mem.Log.History.{Run, stops, goes, deletes, appends, trims_before, compacts}
use hot_mem.Log.History.Sound.{IsLog, Step-IsLog, Run-IsLog}
use hot_mem.Log.History.Complete.{
  behind_cursor, replay_lem, replay_complete, compact_tombstones_passed,
}

abbrev platform : Platform
platform = record {
  show = λ v. "?";
  lower = λ s. s;
  sha256 = λ s. s;
  loads = λ s. none;
  dumps = λ v. "";
}

abbrev rules : Rules
rules = record {
  normalize = λ d. some d;
  validate = λ d. [];
  fingerprint = λ d. "fp";
  content_hash = λ identifier text. text;
  normalize_source_uri = λ s. s;
  file_content_hash = λ identifier f. identifier;
  legacy_file_content_hashes = λ identifier f. [];
  to_int = λ v. some v;
}

abbrev host : Host
host = record {
  now = "2025-01-01T00:00:00Z";
  ledger_now = "2025-01-01T00:00:00Z";
  digest = λ d. elim (get "memory_id" d) as (λ x. String) [ str s ↦ s | _ ↦ "" ];
  platform = platform;
  rules = rules;
}

abbrev origin : Origin
origin = record { mount_id = "m"; replica_id = "r"; history_id = "h"; runtime_generation = "1" }

abbrev row_of : String → Row
row_of id = record {
  id = id;
  namespace = "work";
  content_hash = id;
  columns = field "identifier" (str id) end;
}

abbrev empty : Database
empty = record {
  rows = row_of "a" ∷ row_of "b" ∷ [];
  events = [];
  last_seq = 0;
  tombstones = [];
  marks = λ id. none;
  ledger = [];
  trimmed_through_seq = 0;
  last_known_head_seq = 0;
  last_known_head_event_id = "";
  compacted_tombstones_through_seq = 0;
}

abbrev deletion_of_a : DeleteRequest
deletion_of_a = record {
  memory_id = "a";
  reason = "";
  deleted_at = none;
  occurred_at = none;
  idempotency_key = some "key";
  caller_id = "local";
  event_id = "e1";
}

-- What a test unfolds.
program : Unit {0}
unfolding strip is_space str_len get has put truthy get_memory delete_memory_row strip_envelope_keys
    safe_record_fingerprint event_at_seq event_log_bounds insert_event get_tombstone put_tombstone
    delete_tombstones list_tombstones has_events_at_or_before_seq delete_events
    trim_events_before_seq trim_events_by_count check_candidate check_candidates remove_candidates
    compact_listed compact_tombstones clean_types normalize_event_types check_position post_init
    check_issuer check_scope check_reach check_window validate_replay_cursor
    effective_replay_event_types matches query_events stream_pages replay replay_after
    get_operation_ledger get_operation_ledger_for_memory put_operation_ledger stored_payload
    append_event event_fields build_memory_deleted_payload delete_body delete_on_connection
    delete_memory_record
program = tt

abbrev after_delete : Database
unfolding program
after_delete = (delete_memory_record host origin deletion_of_a empty).1

abbrev signal : String → Entry
signal id = record {
  event_id = id;
  event_type = "memory.created";
  memory_id = some id;
  namespace = "work";
  payload = end;
  occurred_at = none;
}

abbrev row_at : ℕ → String → LogRow
row_at n id = record {
  seq = n;
  event_id = id;
  memory_id = some id;
  namespace = "work";
  event_type = "memory.created";
  occurred_at = "2025-01-01T00:00:00Z";
  payload = end;
}

abbrev two : Database
two = with_event (row_at 2 "e2") after_delete

abbrev three : Database
three = with_event (row_at 3 "e3") two

abbrev trimmed : Database
unfolding program
trimmed = (trim_events_before_seq 2 three).0

abbrev through_1 : CompactRequest
through_1 = record { through_seq = 1; acked_cursor_seq = none; namespace = none; strict = true }

abbrev compacted_log : Database
unfolding program
compacted_log = remove_candidates through_1 trimmed

appended : append_event host origin (signal "e2") after_delete ≡ ok (two, row_at 2 "e2")
unfolding program
appended = refl

abbrev compaction : Compaction
compaction = record { compacted = 1; remaining = 0; compacted_through_seq = 1 }

compacts_1 : compact_tombstones through_1 trimmed ≡ ok (compacted_log, compaction)
unfolding program
compacts_1 = refl

too_early : compact_tombstones through_1 three ≡ err events_not_trimmed_through_tombstone
unfolding program
too_early = refl

numbers_left : map (λ (e : LogRow). e.seq) compacted_log.events ≡ 2 ∷ 3 ∷ []
unfolding program
numbers_left = refl

abbrev identity : Identity
identity = record {
  mount_id = "m";
  replica_id = "r";
  history_id = "h";
  base_snapshot_id = "";
  legacy_history = false;
}

abbrev cursor_at : ℕ → String → ReplayCursor
cursor_at n anchor = record {
  mount_id = "m";
  replica_id = "r";
  history_id = "h";
  seq = n;
  anchor_event_id = anchor;
  base_snapshot_id = "";
  namespace = some "work";
  event_types = "memory.created" ∷ [];
  scope_mode = "legacy";
  version = 1;
}

accepted :
    validate_replay_cursor identity (asked_for none) compacted_log (cursor_at 2 "e2")
    ≡ ok (cursor_at 2 "e2")
unfolding program
accepted = refl

stale :
    validate_replay_cursor identity (asked_for none) compacted_log (cursor_at 1 "e1")
    ≡ err stale_base
unfolding program
stale = refl

abbrev types : List String
types = "memory.created" ∷ "memory.deleted" ∷ "memory.updated" ∷ []

upgraded : effective_replay_event_types (cursor_at 2 "e2") none ≡ ok types
unfolding program
upgraded = refl

streamed : replay identity none (cursor_at 2 "e2") compacted_log ≡ ok (some (row_at 3 "e3" ∷ []))
unfolding program
streamed = refl

-- A cursor at the last number that was trimmed is refused, although it lies at the watermark.
at_watermark :
    check_window (record compacted_log { compacted_tombstones_through_seq = 0 }) (cursor_at 1 "e1")
    ≡ err stale_base
unfolding program
at_watermark = refl
