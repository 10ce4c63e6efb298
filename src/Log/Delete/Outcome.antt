-- ===== src/Log/Delete/Outcome.antt =====
-- The outcomes of `delete_memory_record` of src/hotmem/events.py.
use mathlib.Core.Path.{subst}
use hot_mem.Prelude.{
  sym, ap, ◌≡◌, refl, inl, inr, true, Option, none, some, any, Bool-cases, Result, ok, err,
  raise_if-eq-ok, ◌=ₛ◌, eq_iff,
}
use hot_mem.Json.{bool, Fields, put}
use hot_mem.Delta.Store.{Row, get_memory}
use hot_mem.Events.Target.{Raised, constraint}
use hot_mem.Log.Tables.{
  LogRow, LedgerRow, Database, numbered, with_event, insert_event, get_tombstone,
}
use hot_mem.Connection.{Connection, clean, execute}
use hot_mem.Log.Append.{Origin, Host, Entry, new_event, append_event}
use hot_mem.Log.Delete.{
  DeleteRequest, MutationError, key_reused, failed, missing, recorded_outcome, delete_digest,
  delete_body, after_event, in_transaction, delete_on_connection, delete_fresh, recorded_delete,
  delete_unless_recorded, delete_memory_record, delete_entry, without_row, bury, delete_result,
}

-- What an appended event is.
pub append_event-eq-ok :
    (h : Host) (o : Origin) (e : Entry) (db db' : Database) (row : LogRow)
    → append_event h o e db ≡ ok (db', row)
    → (db' ≡ with_event row db) × (row ≡ numbered (new_event h o e) db)
unfolding append_event insert_event
append_event-eq-ok h o e db db' row c =
    let (_, rest) = raise_if-eq-ok (any (λ r. r.event_id =ₛ e.event_id) db.events) constraint _ c in
    (cc, cc)

-- A deletion that is refused or repeated leaves the tables; one that is carried out appends its
-- event to the tables without the row, and buries the row.
pub data Deletion (h : Host) (o : Origin) (r : DeleteRequest) (db : Database)
    : Result MutationError Fields × Database → Type 0 where
  refused : (e : MutationError) → Deletion h o r db (err e, db)
  repeated :
      (op : LedgerRow)
      → recorded_delete r db ≡ some op
      → op.request_hash ≡ delete_digest h r
      → Deletion h o r db (ok (put "idempotent_replay" (bool true) op.response), db)
  deleted :
      (row : Row) (ev : LogRow)
      → get_memory r.memory_id db.rows ≡ some row
      → ev ≡ numbered (new_event h o (delete_entry h o r row)) db
      → Deletion h o r db (
        ok (delete_result h r row ev),
        bury h o r row ev (with_event ev (without_row r.memory_id db)),
      )

-- The call has come to one of the outcomes, with no open changes on the connection.
abbrev pub Settled :
    Host
    → Origin
    → DeleteRequest
    → Database
    → Result MutationError Fields × Connection Database
    → Type 0
Settled h o r db call =
    (out : Result MutationError Fields × Database) × Deletion h o r db out
    × (call ≡ (out.0, clean out.1))

recorded_outcome-Settled :
    (h : Host) (o : Origin) (r : DeleteRequest) (db : Database) (op : LedgerRow)
    → recorded_delete r db ≡ some op
    → Settled h o r db (recorded_outcome (delete_digest h r) op, clean db)
recorded_outcome-Settled h o r db op e = elim (Bool-cases (op.request_hash =ₛ delete_digest h r)) [
  | inl same ↦ rw same (_, repeated op e ((eq_iff _ _).0 same), refl)
  | inr other ↦ rw other (_, refused key_reused, refl)
]

after_event-Settled :
    (h : Host) (o : Origin) (r : DeleteRequest) (db : Database) (row : Row)
    (called : Result Raised (Database × LogRow))
    → get_memory r.memory_id db.rows ≡ some row
    → append_event h o (delete_entry h o r row) (without_row r.memory_id db) ≡ called
    → Settled h o r db (
        in_transaction
          (after_event h o r row (execute (without_row r.memory_id) (clean db)) called))
after_event-Settled h o r db row (err e) found c = (_, refused (failed e), refl)
after_event-Settled h o r db row (ok (db', ev)) found c =
    let (same, numbered_so) = append_event-eq-ok h o _ _ db' ev c in
    (_, deleted row ev found numbered_so, rw same refl)

fresh-Settled :
    (h : Host) (o : Origin) (r : DeleteRequest) (db : Database) (found : Option Row)
    → get_memory r.memory_id db.rows ≡ found
    → Settled h o r db (delete_fresh h o r found (clean db))
unfolding delete_body
fresh-Settled h o r db none e =
    (_, refused (missing (get_tombstone r.memory_id db.tombstones)), refl)
fresh-Settled h o r db (some row) e = after_event-Settled h o r db row _ e refl

unless_recorded-Settled :
    (h : Host) (o : Origin) (r : DeleteRequest) (db : Database) (found : Option LedgerRow)
    → recorded_delete r db ≡ found
    → Settled h o r db (delete_unless_recorded h o r (clean db) found)
unless_recorded-Settled h o r db none e =
    fresh-Settled h o r db (get_memory r.memory_id db.rows) refl
unless_recorded-Settled h o r db (some op) e = recorded_outcome-Settled h o r db op e

pub delete_on_connection-Settled :
    (h : Host) (o : Origin) (r : DeleteRequest) (db : Database)
    → Settled h o r db (delete_on_connection h o r (clean db))
unfolding delete_on_connection
delete_on_connection-Settled h o r db = unless_recorded-Settled h o r db (recorded_delete r db) refl

pub delete_memory_record-Deletion :
    (h : Host) (o : Origin) (r : DeleteRequest) (db : Database)
    → Deletion h o r db (delete_memory_record h o r db)
unfolding delete_memory_record
delete_memory_record-Deletion h o r db =
    let (out, outcome, same) = delete_on_connection-Settled h o r db in
    subst (Deletion h o r db)
      (sym (
        ap
          (λ (call : Result MutationError Fields × Connection Database). (call.0, call.1.committed))
          same))
      outcome
