-- ===== src/Log/Delete/Burial.antt =====
-- What a deletion of src/hotmem/events.py leaves: the tombstone and the event that agree, and no row.
use mathlib.Core.Path.{subst}
use hot_mem.Prelude.{
  suc, String, ◌≡◌, ◌≢◌, refl, sym, ap, ◌∙◌, inl, inr, none, some, List, [], ◌∷◌, ◌++◌,
  if◌then◌else◌, Bool-cases, Result, ok, err, ◌=ₛ◌, eq_iff,
}
use hot_mem.Prelude.Strings.{eq-false_of_ne}
use hot_mem.Json.{Fields}
use hot_mem.Delta.Store.{Row, get_memory}
use hot_mem.Events.Target.{TombRow, delete_memory_row}
use hot_mem.Log.Tables.{LogRow, Database, Tombstone, get_tombstone, put_tombstone}
use hot_mem.Connection.{clean}
use hot_mem.Log.Append.{Origin, Host}
use hot_mem.Log.Delete.{
  DeleteRequest, MutationError, recorded_delete, delete_on_connection, delete_memory_record,
  new_tombstone,
}
use hot_mem.Log.Delete.Retry.{get_memory-deleted, get_tombstone-put}
use hot_mem.Log.Delete.Outcome.{
  Deletion, refused, repeated, deleted, delete_on_connection-Settled, delete_memory_record-Deletion,
}

get_memory-other :
    (id other : String) (rows : List Row)
    → id ≢ other
    → get_memory other (delete_memory_row id rows).0 ≡ get_memory other rows
unfolding get_memory delete_memory_row
get_memory-other id other [] ne = refl
get_memory-other id other (r ∷ rows) ne = elim (Bool-cases (r.id =ₛ id)) [
  | inl e ↦ rw e (
      get_memory-other id other rows ne
      ∙ rw (eq-false_of_ne r.id other (λ f. ne (sym ((eq_iff r.id id).0 e) ∙ f))) refl)
  | inr e ↦ rw e (ap (λ g. if r.id =ₛ other then some r else g) (get_memory-other id other rows ne))
]

get_tombstone-put_other :
    (id other : String) (t : TombRow) (ts : List Tombstone)
    → id ≢ other
    → get_tombstone other (put_tombstone id t ts) ≡ get_tombstone other ts
unfolding get_tombstone put_tombstone
get_tombstone-put_other id other t [] ne = rw (eq-false_of_ne id other ne) refl
get_tombstone-put_other id other t ((key, old) ∷ ts) ne = elim (Bool-cases (key =ₛ id)) [
  | inl e ↦
      rw
        (
          e,
          eq-false_of_ne id other ne,
          eq-false_of_ne key other (λ f. ne (sym ((eq_iff key id).0 e) ∙ f)),
        )
        refl
  | inr e ↦
      rw e
        (ap (λ g. if key =ₛ other then some old else g) (get_tombstone-put_other id other t ts ne))
]

-- The memory is gone; its tombstone carries the number and the id of the event of its deletion,
-- which is the newest of the log, and the namespace and the content hash of the row.
pub record Buried (id : String) (row : Row) (db db' : Database) : Type 0 where
  pub tomb : TombRow
  pub event : LogRow
  pub gone : get_memory id db'.rows ≡ none
  pub unmarked : db'.marks id ≡ none
  pub entombed : get_tombstone id db'.tombstones ≡ some tomb
  pub logged : db'.events ≡ db.events ++ event ∷ []
  pub newest : event.seq ≡ suc db.last_seq
  pub type : event.event_type ≡ "memory.deleted"
  pub memory : event.memory_id ≡ some id
  pub numbered : tomb.deleted_at_seq ≡ event.seq
  pub named : tomb.delete_event_id ≡ event.event_id
  pub namespace : tomb.namespace ≡ row.namespace
  pub content_hash : tomb.content_hash ≡ row.content_hash

Deletion-Buried :
    (h : Host) (o : Origin) (r : DeleteRequest) (db : Database)
    (out : Result MutationError Fields × Database) (result : Fields)
    → Deletion h o r db out
    → recorded_delete r db ≡ none
    → out.0 ≡ ok result
    → (row : Row) × (get_memory r.memory_id db.rows ≡ some row) × Buried r.memory_id row db out.1
Deletion-Buried h o r db out result (refused e) fresh returns = cc
Deletion-Buried h o r db out result (repeated op e same) fresh returns = cc
Deletion-Buried h o r db out result (deleted row ev found e) fresh returns = (
  row,
  found,
  record {
    tomb = new_tombstone h o r row ev;
    event = ev;
    gone = get_memory-deleted r.memory_id db.rows;
    unmarked = rw ((eq_iff r.memory_id r.memory_id).1 refl) refl;
    entombed = get_tombstone-put r.memory_id (new_tombstone h o r row ev) db.tombstones;
    logged = refl;
    newest = ap (λ (x : LogRow). x.seq) e;
    type = ap (λ (x : LogRow). x.event_type) e;
    memory = ap (λ (x : LogRow). x.memory_id) e;
    numbered = refl;
    named = refl;
    namespace = refl;
    content_hash = refl;
  },
)

-- A deletion that returns, and is no replay of a recorded one, has found a row; the row and its
-- watermark are gone, the newest event of the log is the deletion of this memory, and the tombstone
-- has the number and the id of that event and the row's namespace and content hash.
pub delete_memory_record-Buried :
    (h : Host) (o : Origin) (r : DeleteRequest) (db db' : Database) (result : Fields)
    → recorded_delete r db ≡ none
    → delete_memory_record h o r db ≡ (ok result, db')
    → (row : Row) × (get_memory r.memory_id db.rows ≡ some row) × Buried r.memory_id row db db'
delete_memory_record-Buried h o r db db' result fresh returns =
    subst
      (λ d. (row : Row) × (get_memory r.memory_id db.rows ≡ some row) × Buried r.memory_id row db d)
      (ap (λ p. p.1) returns)
      (Deletion-Buried h o r db (delete_memory_record h o r db) result
        (delete_memory_record-Deletion h o r db) fresh (ap (λ p. p.0) returns))

Deletion-others :
    (h : Host) (o : Origin) (r : DeleteRequest) (db : Database)
    (out : Result MutationError Fields × Database) (other : String)
    → Deletion h o r db out
    → r.memory_id ≢ other
    → (get_memory other out.1.rows ≡ get_memory other db.rows)
      × (get_tombstone other out.1.tombstones ≡ get_tombstone other db.tombstones)
Deletion-others h o r db out other (refused e) ne = (refl, refl)
Deletion-others h o r db out other (repeated op e same) ne = (refl, refl)
Deletion-others h o r db out other (deleted row ev found e) ne = (
  get_memory-other r.memory_id other db.rows ne,
  get_tombstone-put_other r.memory_id other (new_tombstone h o r row ev) db.tombstones ne,
)

-- A call that deletes one memory, whatever its outcome, leaves the row and the tombstone of every
-- other memory.
pub delete_memory_record_others :
    (h : Host) (o : Origin) (r : DeleteRequest) (db : Database) (other : String)
    → r.memory_id ≢ other
    → (get_memory other (delete_memory_record h o r db).1.rows ≡ get_memory other db.rows)
      × (get_tombstone other (delete_memory_record h o r db).1.tombstones
          ≡ get_tombstone other db.tombstones)
delete_memory_record_others h o r db other ne =
    Deletion-others h o r db (delete_memory_record h o r db) other
      (delete_memory_record-Deletion h o r db) ne

error_keeps :
    (h : Host) (o : Origin) (r : DeleteRequest) (db : Database)
    (out : Result MutationError Fields × Database) (e : MutationError)
    → Deletion h o r db out
    → out.0 ≡ err e
    → out.1 ≡ db
error_keeps h o r db out e (refused raised) fails = refl
error_keeps h o r db out e (repeated op found same) fails = refl
error_keeps h o r db out e (deleted row ev found g) fails = cc

-- A deletion on a connection without open changes that raises, in its checks or between the statements of its transaction, leaves its
-- connection without open changes and the tables that are committed as they were.
pub delete_memory_record_atomic :
    (h : Host) (o : Origin) (r : DeleteRequest) (db : Database) (e : MutationError)
    → (delete_on_connection h o r (clean db)).0 ≡ err e
    → (delete_on_connection h o r (clean db)).1 ≡ clean db
delete_memory_record_atomic h o r db e fails =
    let (out, outcome, same) = delete_on_connection-Settled h o r db in
    ap (λ p. p.1) same
    ∙ ap clean (error_keeps h o r db out e outcome (sym (ap (λ p. p.0) same) ∙ fails))
