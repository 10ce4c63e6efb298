-- ===== src/Log/Delete.antt =====
-- `delete_memory_record` of src/hotmem/events.py, in a transaction of its own.
pub mod Outcome
pub mod Retry
pub mod Burial
use hot_mem.Prelude.{
  ℕ, String, Bool, true, false, not, Option, none, some, List, [], ◌∷◌, if◌then◌else◌, get_or, ◌=ₛ◌,
  Result, ok, err, ◌>>=◌,
}
use hot_mem.Prelude.Strings.{is_blank, strip}
use hot_mem.Json.{Value, str, num, bool, obj, Fields, end, field, get, put, truthy}
use hot_mem.Events.State.{drop_at}
use hot_mem.Events.Target.{TombRow, Raised, delete_memory_row}
use hot_mem.Delta.Store.{Row, get_memory}
use hot_mem.Log.Tables.{LogRow, LedgerRow, Database, get_tombstone, put_tombstone}
use hot_mem.Connection.{Connection, clean, execute, db_commit, db_rollback}
use hot_mem.Log.Ledger.{find_operation, put_operation_ledger}
use hot_mem.Log.Append.{
  Origin, Host, Entry, str_or, given_or, row_fingerprint, origin_fields, append_event, event_fields,
}

-- `_build_memory_deleted_payload`, with an origin
unfoldable pub build_memory_deleted_payload :
    Host → Origin → Row → Option String → String → String → Fields
build_memory_deleted_payload h origin row deleted_at occurred_at reason =
    let payload : Fields = field "payload_schema_version" (num false 1 0) (
      field "event_category" (str "reconstructing") (
        field "transition" (str "delete") (
          field "id" (str row.id) (
            field "identifier" (str (str_or h (get "identifier" row.columns) "")) (
              field "namespace" (str row.namespace) (
                field "content_hash" (str row.content_hash) (
                  field "record_fingerprint" (str (row_fingerprint h row)) (
                    field "deleted_at"
                      (str (given_or deleted_at (given_or (some occurred_at) h.now)))
                      (field "origin" (obj (origin_fields origin))
                        (field "occurred_at" (str occurred_at) end)))))))))) in
    if is_blank reason then payload else put "reason" (str reason) payload

pub record DeleteRequest : Type 0 where
  pub memory_id : String
  pub reason : String
  pub deleted_at : Option String
  pub occurred_at : Option String
  pub idempotency_key : Option String
  pub caller_id : String
  pub event_id : String  -- `uuid.uuid4().hex` of the event

-- What is raised; `failed` is an exception of the body of the transaction.
pub data MutationError : Type 0 where
  key_reused not_found : MutationError
  already_deleted : ℕ → MutationError
  failed : Raised → MutationError

-- `(idempotency_key or "").strip()`
abbrev pub clean_key : Option String → String
clean_key none = strip ""
clean_key (some key) = strip key

abbrev pub delete_digest : Host → DeleteRequest → String
delete_digest h r = h.digest (
    field "op" (str "delete_memory_record")
      (field "memory_id" (str r.memory_id) (field "reason" (str r.reason) end)))

-- The namespace of the row or else of the tombstone.
abbrev pub probe_namespace : Option Row → Option TombRow → String
probe_namespace (some row) tomb = row.namespace
probe_namespace none (some tomb) = tomb.namespace
probe_namespace none none = ""

abbrev pub deleted_at_of : Host → DeleteRequest → String
deleted_at_of h r = given_or r.deleted_at (given_or r.occurred_at h.now)

abbrev pub event_time_of : Host → DeleteRequest → String
event_time_of h r = given_or r.occurred_at (deleted_at_of h r)

abbrev pub new_tombstone : Host → Origin → DeleteRequest → Row → LogRow → TombRow
new_tombstone h origin r row ev = record {
  namespace = row.namespace;
  identifier = str_or h (get "identifier" row.columns) "";
  content_hash = row.content_hash;
  record_fingerprint = row_fingerprint h row;
  deleted_at = deleted_at_of h r;
  deleted_at_seq = ev.seq;
  delete_event_id = ev.event_id;
  origin_mount_id = origin.mount_id;
  origin_replica_id = origin.replica_id;
  origin_history_id = origin.history_id;
  metadata_json = str_or h (get "metadata_json" row.columns) "{}";
  tags = str_or h (get "tags" row.columns) "[]";
  reason = r.reason;
}

-- The dictionary `result`.
abbrev pub delete_result : Host → DeleteRequest → Row → LogRow → Fields
delete_result h r row ev = field "memory_id" (str r.memory_id) (
    field "namespace" (str row.namespace) (
      field "identifier" (str (str_or h (get "identifier" row.columns) "")) (
        field "content_hash" (str row.content_hash) (
          field "record_fingerprint" (str (row_fingerprint h row)) (
            field "deleted_at" (str (deleted_at_of h r)) (
              field "deleted_at_seq" (num false ev.seq 0) (
                field "delete_event_id" (str ev.event_id) (
                  field "event" (obj (event_fields ev))
                    (field "idempotent_replay" (bool false) end)))))))))

-- The row of the ledger for an operation.
abbrev pub delete_operation : Host → DeleteRequest → Row → Fields → LedgerRow
delete_operation h r row result = record {
  caller_id = r.caller_id;
  namespace = row.namespace;
  operation_key = clean_key r.idempotency_key;
  operation_name = "delete_memory_record";
  request_hash = delete_digest h r;
  memory_id = r.memory_id;
  content_hash = row.content_hash;
  response = result;
  created_at = h.ledger_now;
}

-- The ledger, with a row where the call has a key.
abbrev pub record_operation : Host → DeleteRequest → Row → Fields → List LedgerRow → List LedgerRow
record_operation h r row result ledger =
    if is_blank (clean_key r.idempotency_key)
    then ledger
    else put_operation_ledger (delete_operation h r row result) ledger

-- The event of the deletion.
abbrev pub delete_entry : Host → Origin → DeleteRequest → Row → Entry
delete_entry h origin r row = record {
  event_id = r.event_id;
  event_type = "memory.deleted";
  memory_id = some r.memory_id;
  namespace = row.namespace;
  payload =
      build_memory_deleted_payload h origin row (some (deleted_at_of h r)) (event_time_of h r)
        r.reason;
  occurred_at = some (event_time_of h r);
}

abbrev pub without_row : String → Database → Database
without_row id db = record db {
  rows = (delete_memory_row id db.rows).0;
  marks = drop_at id db.marks;
}

-- The tables with the tombstone and the entry of the ledger.
abbrev pub bury : Host → Origin → DeleteRequest → Row → LogRow → Database → Database
bury h origin r row ev db = record db {
  tombstones = put_tombstone r.memory_id (new_tombstone h origin r row ev) db.tombstones;
  ledger = record_operation h r row (delete_result h r row ev) db.ledger;
}

-- The statements after the call of `append_event`.
abbrev pub after_event :
    Host
    → Origin
    → DeleteRequest
    → Row
    → Connection Database
    → Result Raised (Database × LogRow)
    → Result Raised Fields × Connection Database
after_event h origin r row c (err e) = (err e, c)
after_event h origin r row c (ok (db, ev)) =
    (ok (delete_result h r row ev), execute (bury h origin r row ev) (execute (λ old. db) c))

-- The statements of the transaction, with what an exception leaves of them.
unfoldable pub delete_body :
    Host
    → Origin
    → DeleteRequest
    → Row
    → Connection Database
    → Result Raised Fields × Connection Database
delete_body h origin r row c =
    let removed = execute (without_row r.memory_id) c in
    after_event h origin r row removed
      (append_event h origin (delete_entry h origin r row) removed.working)

-- The end of the `try` block: `db.commit()`, or `db.rollback()` where it has raised.
abbrev pub in_transaction :
    Result Raised Fields × Connection Database → Result MutationError Fields × Connection Database
in_transaction (err e, c) = (err (failed e), db_rollback c)
in_transaction (ok result, c) = (ok result, db_commit c)

abbrev pub missing : Option TombRow → MutationError
missing none = not_found
missing (some tomb) = already_deleted tomb.deleted_at_seq

abbrev pub delete_fresh :
    Host
    → Origin
    → DeleteRequest
    → Option Row
    → Connection Database
    → Result MutationError Fields × Connection Database
delete_fresh h origin r none c = (err (missing (get_tombstone r.memory_id c.working.tombstones)), c)
delete_fresh h origin r (some row) c = in_transaction (delete_body h origin r row c)

-- The recorded outcome of an operation with the same key.
abbrev pub recorded_outcome : String → LedgerRow → Result MutationError Fields
recorded_outcome digest op =
    if not (op.request_hash =ₛ digest)
    then err key_reused
    else ok (put "idempotent_replay" (bool true) op.response)

abbrev pub recorded_delete : DeleteRequest → Database → Option LedgerRow
recorded_delete r db =
    if is_blank (clean_key r.idempotency_key)
    then none
    else find_operation r.caller_id
        (probe_namespace (get_memory r.memory_id db.rows) (get_tombstone r.memory_id db.tombstones))
        (clean_key r.idempotency_key) r.memory_id db.ledger

-- The call, for the row of the ledger that its key finds.
abbrev pub delete_unless_recorded :
    Host
    → Origin
    → DeleteRequest
    → Connection Database
    → Option LedgerRow
    → Result MutationError Fields × Connection Database
delete_unless_recorded h origin r c (some op) = (recorded_outcome (delete_digest h r) op, c)
delete_unless_recorded h origin r c none =
    delete_fresh h origin r (get_memory r.memory_id c.working.rows) c

unfoldable pub delete_on_connection :
    Host
    → Origin
    → DeleteRequest
    → Connection Database
    → Result MutationError Fields × Connection Database
delete_on_connection h origin r c =
    delete_unless_recorded h origin r c (recorded_delete r c.working)

-- The call on a connection with no open changes, and what the store then holds.
unfoldable pub delete_memory_record :
    Host → Origin → DeleteRequest → Database → Result MutationError Fields × Database
delete_memory_record h origin r db =
    let out = delete_on_connection h origin r (clean db) in (out.0, out.1.committed)
