-- ===== src/Log/Tests/Claims.antt =====
-- The theorems on the log at concrete inputs.
use mathlib.Core.List.{Memᴰ}
use mathlib.Core.Path.{subst}
use hot_mem.Prelude.{◌≡◌, refl, ap, inl, inr, ◌≤◌, true, none, some, List, [], ◌∷◌, ok, err, arith}
use hot_mem.Prelude.Strings.{ne_of_eq-false}
use hot_mem.Prelude.Membership.{Memᴰ-cons}
use hot_mem.Json.{bool, Fields, end, put}
use hot_mem.Delta.Store.{Row, get_memory}
use hot_mem.Events.Target.{TombRow, constraint}
use hot_mem.Log.Tables.{LogRow, Tombstone, get_tombstone}
use hot_mem.Connection.{clean}
use hot_mem.Log.Stream.{asked_for, replay}
use hot_mem.Log.Delete.{
  DeleteRequest, failed, already_deleted, delete_on_connection, delete_memory_record,
}
use hot_mem.Log.Compact.Safe.{Removable, compact_tombstones-Removable}
use hot_mem.Log.Delete.Retry.{delete_memory_record_retry}
use hot_mem.Log.Delete.Burial.{
  Buried, delete_memory_record-Buried, delete_memory_record_atomic, delete_memory_record_others,
}
use hot_mem.Log.History.{Run, stops, goes, deletes, appends, trims_before, compacts}
use hot_mem.Log.History.Sound.{IsLog, Step-IsLog, Run-IsLog}
use hot_mem.Log.History.Complete.{
  behind_cursor, replay_lem, replay_complete, compact_tombstones_passed,
}
use hot_mem.Log.Tests.{
  host, origin, empty, deletion_of_a, program, after_delete, signal, row_at, two, three, trimmed,
  through_1, compacted_log, compaction, compacts_1, identity, cursor_at, accepted, types, upgraded,
}

empty-IsLog : IsLog empty
empty-IsLog = record { ascending = tt; bounded = λ e m. elim m [ ]; compacted = omega arith }

until_three : Run empty three
unfolding program
until_three = goes (deletes host origin deletion_of_a) (
    goes (appends host origin (signal "e2") two (row_at 2 "e2") refl)
      (goes (appends host origin (signal "e3") three (row_at 3 "e3") refl) stops))

after_three : Run three compacted_log
unfolding program
after_three = goes (trims_before 2) (goes (compacts through_1 compacted_log compaction refl) stops)

three-IsLog : IsLog three
three-IsLog = Run-IsLog until_three empty-IsLog

compacted_log-IsLog : IsLog compacted_log
compacted_log-IsLog = Run-IsLog after_three three-IsLog

Step-IsLog_example : IsLog after_delete
unfolding after_delete delete_memory_record delete_on_connection
Step-IsLog_example = Step-IsLog (deletes host origin deletion_of_a) empty-IsLog

replay_lem_example :
    replay identity none (cursor_at 2 "e2") compacted_log
    ≡ ok (some (behind_cursor (cursor_at 2 "e2") types compacted_log))
replay_lem_example =
    replay_lem identity none (cursor_at 2 "e2") (cursor_at 2 "e2") types compacted_log
      compacted_log-IsLog accepted upgraded

replay_complete_example :
    (stream : List LogRow) × (replay identity none (cursor_at 2 "e2") compacted_log
      ≡ ok (some stream))
    × Memᴰ (row_at 3 "e3") stream
unfolding program
replay_complete_example =
    replay_complete identity none (cursor_at 2 "e2") (cursor_at 2 "e2") types three compacted_log
      (row_at 3 "e3") three-IsLog after_three accepted upgraded
      (Memᴰ.tail (Memᴰ.tail (Memᴰ.head refl))) (omega arith) refl refl

abbrev tomb_of_a : TombRow
tomb_of_a = record {
  namespace = "work";
  identifier = "a";
  content_hash = "a";
  record_fingerprint = "fp";
  deleted_at = "2025-01-01T00:00:00Z";
  deleted_at_seq = 1;
  delete_event_id = "e1";
  origin_mount_id = "m";
  origin_replica_id = "r";
  origin_history_id = "h";
  metadata_json = "{}";
  tags = "[]";
  reason = "";
}

tombs_once : trimmed.tombstones ≡ ("a", tomb_of_a) ∷ []
unfolding program
tombs_once = refl

tombs_gone : compacted_log.tombstones ≡ []
unfolding program
tombs_gone = refl

only_a : (u : TombRow) → Memᴰ ("a", u) trimmed.tombstones → u ≡ tomb_of_a
only_a u m = elim (Memᴰ-cons (subst (Memᴰ ("a", u)) tombs_once m)) [
  | inl e ↦ ap (λ (x : Tombstone). x.1) e
  | inr rest ↦ elim rest [ ]
]

abbrev a_buried : Tombstone
a_buried = ("a", tomb_of_a)

none_left : ¬ Memᴰ ("a", tomb_of_a) compacted_log.tombstones
none_left m = let none : Memᴰ a_buried [] = subst (Memᴰ a_buried) tombs_gone m in elim none [ ]

compact_tombstones-Removable_example : Removable trimmed compacted_log "a" tomb_of_a
compact_tombstones-Removable_example =
    compact_tombstones-Removable through_1 trimmed compacted_log compaction "a" tomb_of_a compacts_1
      (rw tombs_once (Memᴰ.head refl)) only_a none_left

compact_tombstones_passed_example : tomb_of_a.deleted_at_seq ≤ 2
compact_tombstones_passed_example =
    compact_tombstones_passed identity (asked_for none) (cursor_at 2 "e2") (cursor_at 2 "e2")
      through_1 trimmed compacted_log compacted_log compaction "a" tomb_of_a compacts_1
      (rw tombs_once (Memᴰ.head refl)) only_a none_left stops accepted

abbrev result_of_a : Fields
unfolding program
result_of_a = elim (delete_memory_record host origin deletion_of_a empty).0 as (λ x. Fields) [
  | ok result ↦ result
  | err e ↦ end
]

deletes_a : delete_memory_record host origin deletion_of_a empty ≡ (ok result_of_a, after_delete)
unfolding program
deletes_a = refl

delete_memory_record-Buried_example :
    (row : Row) × (get_memory "a" empty.rows ≡ some row) × Buried "a" row empty after_delete
unfolding program
delete_memory_record-Buried_example =
    delete_memory_record-Buried host origin deletion_of_a empty after_delete result_of_a refl
      deletes_a

-- An event has been appended in between.
delete_memory_record_retry_example :
    delete_memory_record
      (record host { now = "later"; ledger_now = "later" })
      origin
      (record deletion_of_a { deleted_at = none; occurred_at = none; event_id = "e9" })
      two
    ≡ (ok (put "idempotent_replay" (bool true) result_of_a), two)
unfolding program
delete_memory_record_retry_example =
    delete_memory_record_retry host "later" "later" deletion_of_a none none "e9" origin origin empty
      after_delete two result_of_a refl deletes_a refl refl refl

abbrev unkeyed : DeleteRequest
unkeyed = record deletion_of_a { idempotency_key = none }

again :
    delete_memory_record host origin unkeyed after_delete ≡ (err (already_deleted 1), after_delete)
unfolding program
again = refl

-- The id of the event is taken, which is found after the row has been deleted.
abbrev clashing : DeleteRequest
clashing = record deletion_of_a { memory_id = "b"; idempotency_key = none }

clashes :
    (delete_on_connection host origin clashing (clean after_delete)).0 ≡ err (failed constraint)
unfolding program
clashes = refl

delete_memory_record_atomic_example :
    (delete_on_connection host origin clashing (clean after_delete)).1 ≡ clean after_delete
delete_memory_record_atomic_example =
    delete_memory_record_atomic host origin clashing after_delete (failed constraint) clashes

delete_memory_record_others_example :
    (get_memory "b" after_delete.rows ≡ get_memory "b" empty.rows)
    × (get_tombstone "b" after_delete.tombstones ≡ get_tombstone "b" empty.tombstones)
unfolding after_delete delete_memory_record delete_on_connection
delete_memory_record_others_example =
    delete_memory_record_others host origin deletion_of_a empty "b" (ne_of_eq-false "a" "b" refl)
