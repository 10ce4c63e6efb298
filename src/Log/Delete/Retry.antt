-- ===== src/Log/Delete/Retry.antt =====
-- A deletion that is asked for twice with one key: src/hotmem/events.py.
use hot_mem.Prelude.{
  String, ◌≡◌, refl, sym, ap, inl, inr, true, false, Option, none, some, List, [], ◌∷◌, Bool-cases,
  Result, ok, arith, ◌=ₛ◌, ◌∙◌, eq_iff, ok-injective,
}
use hot_mem.Prelude.Strings.{is_blank}
use hot_mem.Json.{Value, bool, Fields, end, field, put}
use hot_mem.Delta.Store.{Row, get_memory}
use hot_mem.Events.Target.{TombRow, delete_memory_row}
use hot_mem.Log.Tables.{
  LogRow, LedgerRow, Database, Tombstone, with_event, get_tombstone, put_tombstone,
}
use hot_mem.Log.Ledger.{has_key, get_operation_ledger, put_operation_ledger}
use hot_mem.Log.Append.{Origin, Host}
use hot_mem.Log.Delete.{
  DeleteRequest, MutationError, delete_digest, clean_key, recorded_delete, delete_on_connection,
  delete_memory_record, bury, delete_operation, new_tombstone, without_row, delete_result,
}
use hot_mem.Log.Delete.Outcome.{Deletion, refused, repeated, deleted, delete_memory_record-Deletion}

put-put : (k : String) (v : Value) (d : Fields) → put k v (put k v d) ≡ put k v d
unfolding put
put-put k v end = ground (arith, (eq_iff k k).1 refl)
put-put k v (field j w d) = elim (Bool-cases (j =ₛ k)) [
  | inl e ↦ rw (e, put) (rw e refl)
  | inr e ↦ rw (e, put) (rw e (ap (field j w) (put-put k v d)))
]

pub get_memory-deleted :
    (id : String) (rows : List Row) → get_memory id (delete_memory_row id rows).0 ≡ none
unfolding get_memory delete_memory_row
get_memory-deleted id [] = refl
get_memory-deleted id (r ∷ rows) = ground (arith, get_memory-deleted id rows)

pub get_tombstone-put :
    (id : String) (t : TombRow) (ts : List Tombstone)
    → get_tombstone id (put_tombstone id t ts) ≡ some t
unfolding get_tombstone put_tombstone
get_tombstone-put id t [] = ground (arith, (eq_iff id id).1 refl)
get_tombstone-put id t ((key, old) ∷ ts) =
    ground (arith, (eq_iff id id).1 refl, get_tombstone-put id t ts)

has_key-own : (row : LedgerRow) → has_key row.caller_id row.namespace row.operation_key row ≡ true
has_key-own row = ground (
  arith,
  (eq_iff row.caller_id row.caller_id).1 refl,
  (eq_iff row.namespace row.namespace).1 refl,
  (eq_iff row.operation_key row.operation_key).1 refl,
)

get_operation_ledger-put :
    (row : LedgerRow) (rows : List LedgerRow)
    → get_operation_ledger row.caller_id row.namespace row.operation_key
        (put_operation_ledger row rows)
      ≡ some row
unfolding get_operation_ledger put_operation_ledger
get_operation_ledger-put row [] = rw (has_key-own row) refl
get_operation_ledger-put row (x ∷ rows) =
    elim (Bool-cases (has_key row.caller_id row.namespace row.operation_key x)) [
      | inl e ↦ rw e (get_operation_ledger-put row rows)
      | inr e ↦ rw e (rw e (get_operation_ledger-put row rows))
    ]

-- The same call at another time.
module _ (h : Host) (now ledger_now : String) (r : DeleteRequest)
    (deleted_at occurred_at : Option String) (event_id : String) where
  abbrev later_host : Host
  later_host = record h { now = now; ledger_now = ledger_now }

  abbrev same_request : DeleteRequest
  same_request = record r {
    deleted_at = deleted_at;
    occurred_at = occurred_at;
    event_id = event_id;
  }

  replays :
      (o : Origin) (db : Database) (op : LedgerRow)
      → recorded_delete r db ≡ some op
      → op.request_hash ≡ delete_digest h r
      → delete_memory_record later_host o same_request db
        ≡ (ok (put "idempotent_replay" (bool true) op.response), db)
  unfolding delete_memory_record delete_on_connection
  replays o db op e same = rw (e, (eq_iff _ _).1 same) refl

  recorded_delete-same :
      (db later : Database)
      → get_memory r.memory_id later.rows ≡ get_memory r.memory_id db.rows
      → get_tombstone r.memory_id later.tombstones ≡ get_tombstone r.memory_id db.tombstones
      → later.ledger ≡ db.ledger
      → recorded_delete r later ≡ recorded_delete r db
  recorded_delete-same db later row tomb ledger = rw (row, tomb, ledger) refl

  recorded_delete-bury :
      (o : Origin) (db : Database) (row : Row) (ev : LogRow)
      → is_blank (clean_key r.idempotency_key) ≡ false
      → recorded_delete r (bury h o r row ev (with_event ev (without_row r.memory_id db)))
        ≡ some (delete_operation h r row (delete_result h r row ev))
  recorded_delete-bury o db row ev keyed =
      rw
        (
          keyed,
          get_memory-deleted r.memory_id db.rows,
          get_tombstone-put r.memory_id (new_tombstone h o r row ev) db.tombstones,
          get_operation_ledger-put (delete_operation h r row (delete_result h r row ev)) db.ledger,
        )
        refl

  -- A call with a key that returns has recorded an operation that answers the same call.
  Deletion-recorded :
      (o : Origin) (db : Database) (result : Fields) (out : Result MutationError Fields × Database)
      → Deletion h o r db out
      → is_blank (clean_key r.idempotency_key) ≡ false
      → out.0 ≡ ok result
      → (op : LedgerRow) × (recorded_delete r out.1 ≡ some op)
        × (op.request_hash ≡ delete_digest h r)
        × (put "idempotent_replay" (bool true) op.response
            ≡ put "idempotent_replay" (bool true) result)
  Deletion-recorded o db result out (refused e) keyed returns = cc
  Deletion-recorded o db result out (repeated op e same) keyed returns = (
    op,
    e,
    same,
    sym (put-put "idempotent_replay" (bool true) op.response)
        ∙ ap (put "idempotent_replay" (bool true)) (sym (ok-injective returns)),
  )
  Deletion-recorded o db result out (deleted row ev found e) keyed returns = (
    delete_operation h r row (delete_result h r row ev),
    recorded_delete-bury o db row ev keyed,
    refl,
    ap (put "idempotent_replay" (bool true)) (sym (ok-injective returns)),
  )

  -- When a deletion with an idempotency key has returned, the same deletion, asked for again with any
  -- clock, times and event id, returns the same result marked as a replay and changes nothing: no
  -- second event. This holds as long as the ledger and what is stored of the deleted memory are as
  -- the first call left them, whatever else has changed, such as events appended and trimmed.
  pub delete_memory_record_retry :
      (o o' : Origin) (db db' later : Database) (result : Fields)
      → is_blank (clean_key r.idempotency_key) ≡ false
      → delete_memory_record h o r db ≡ (ok result, db')
      → get_memory r.memory_id later.rows ≡ get_memory r.memory_id db'.rows
      → get_tombstone r.memory_id later.tombstones ≡ get_tombstone r.memory_id db'.tombstones
      → later.ledger ≡ db'.ledger
      → delete_memory_record later_host o' same_request later
        ≡ (ok (put "idempotent_replay" (bool true) result), later)
  delete_memory_record_retry o o' db db' later result keyed returns row tomb ledger =
      let (op, recorded, same, answer) =
        Deletion-recorded o db result (delete_memory_record h o r db)
          (delete_memory_record-Deletion h o r db) keyed (ap (λ p. p.0) returns) in
      let found =
        recorded_delete-same db' later row tomb ledger
        ∙ ap (recorded_delete r) (sym (ap (λ p. p.1) returns))
        ∙ recorded in
      replays o' later op found same ∙ ap (λ d. (ok d, later)) answer
