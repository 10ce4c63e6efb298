-- ===== src/Events/Target.antt =====
-- The tables of a replay's target and the calls of src/hotmem/db.py that the second pass makes, and
-- the row that an event's payload becomes (`_event_to_memory_record` of src/hotmem/events.py).
use hot_mem.Prelude.{
  ℕ, suc, any, String, Bool, true, false, ◌&&◌, ◌||◌, not, Option, none, some, List, [], ◌∷◌, ◌++◌,
  if◌then◌else◌, keep, ◌=ₛ◌, Result, ok, err, ◌>>=◌, ◌>>◌, raise_if,
}
use hot_mem.Json.{Value, null, str, num, Fields, end, field, get, has, put, truthy}
use hot_mem.Delta.Store.{Row, displaces}
use hot_mem.Events.State.{Map, put_at, drop_at, Mark}

-- What Python and the driver of SQLite do with a value.
pub record Driver : Type 0 where
  pub text : Value → String  -- what a column of type TEXT stores
  pub binds : Row → Bool  -- every value of the row can be bound
  pub no_bytes : Value  -- `b""`
  pub now : String  -- `strftime('%Y-%m-%dT%H:%M:%SZ', 'now')`
  pub to_float : Value → Option Value  -- `float(v)`
  pub to_int : Value → Option Value  -- `int(v)`
  pub b64decode : Value → Option Value  -- `base64.b64decode(v)`

-- What is raised in the second pass.
pub data Raised : Type 0 where
  conversion unbound unplanned constraint : Raised

-- A row of `memory_tombstones`.
pub record TombRow : Type 0 where
  pub namespace : String
  pub identifier : String
  pub content_hash : String
  pub record_fingerprint : String
  pub deleted_at : String
  pub deleted_at_seq : ℕ
  pub delete_event_id : String
  pub origin_mount_id : String
  pub origin_replica_id : String
  pub origin_history_id : String
  pub metadata_json : String
  pub tags : String
  pub reason : String

-- The three tables that a replay writes.
pub record Target : Type 0 where
  pub rows : List Row
  pub tombs : Map TombRow
  pub marks : Map Mark

abbrev pub or_raise : {A : Type 0} → Option A → Result Raised A
or_raise none = err conversion
or_raise (some a) = ok a

abbrev pub is_null : Value → Bool
is_null null = true
is_null v = false

-- `default if v is None else f(v)`
abbrev pub unless_null : Value → Value → Result Raised Value → Result Raised Value
unless_null v default converted = if is_null v then ok default else converted

-- `p.get(k, "")`
abbrev pub get_or_empty : String → Fields → Value
get_or_empty k p = if has k p then get k p else str ""

-- `p.get(k) or default`
abbrev pub or_value : String → Fields → Value → Value
or_value k p default = if truthy (get k p) then get k p else default

-- `0 if v is None else int(bool(v))`
abbrev pub bool_int : Value → Value
bool_int v = if truthy v then num false 1 0 else num false 0 0

-- `COALESCE(?, strftime(…))` on `created_at`
abbrev pub stamped : Driver → Row → Row
stamped d r =
    if is_null (get "created_at" r.columns)
    then record r { columns = put "created_at" (str d.now) r.columns }
    else r

-- The column `identifier` is declared NOT NULL.
abbrev pub is_unnamed : Row → Bool
is_unnamed r = is_null (get "identifier" r.columns)

-- `INSERT OR IGNORE` ignores a row whose key or whose entry of the unique index is taken, and one
-- without an identifier.
abbrev pub is_ignored : Row → List Row → Bool
is_ignored new rows = is_unnamed new || any (displaces new) rows

unfoldable pub insert_ignore : Driver → Row → List Row → List Row
insert_ignore d new rows = if is_ignored new rows then rows else rows ++ stamped d new ∷ []

-- `insert_many_ignore`: the rows, and how many were inserted.
unfoldable pub insert_many_ignore : Driver → List Row → List Row → Result Raised (List Row × ℕ)
insert_many_ignore d [] rows = ok (rows, 0)
insert_many_ignore d (new ∷ more) rows = do
  raise_if (not (d.binds new)) unbound
  (rows', count) ← insert_many_ignore d more (insert_ignore d new rows)
  ok (rows', if is_ignored new rows then count else suc count)

abbrev pub replaced : Row → List Row → List Row
replaced new [] = []
replaced new (r ∷ rest) = (if r.id =ₛ new.id then new else r) ∷ replaced new rest

abbrev pub has_row : String → List Row → Bool
has_row id rows = any (λ r. r.id =ₛ id) rows

-- `replace_memory_record`: the NOT NULL column, or the unique index of another row makes the statement fail.
unfoldable pub replace_memory_record : Driver → Row → List Row → Result Raised (List Row × Bool)
replace_memory_record d new rows = do
  raise_if (not (d.binds new)) unbound
  raise_if
      (has_row new.id rows
        && (is_unnamed new || any (λ r. displaces new r && not (r.id =ₛ new.id)) rows))
      constraint
  ok (replaced new rows, has_row new.id rows)

-- `delete_memory_row`
unfoldable pub delete_memory_row : String → List Row → List Row × Bool
delete_memory_row id rows = (keep (λ r. not (r.id =ₛ id)) rows, has_row id rows)

-- `record_tombstone`
abbrev pub record_tombstone : String → TombRow → Target → Target
record_tombstone id tomb t = record t { tombs = put_at id tomb t.tombs }

-- `set_replay_watermark`
abbrev pub set_replay_watermark : String → Mark → Target → Target
set_replay_watermark id mark t = record t { marks = put_at id mark t.marks }

-- `delete_replay_watermark`
abbrev pub delete_replay_watermark : String → Target → Target
delete_replay_watermark id t = record t { marks = drop_at id t.marks }

-- The columns whose values are not computed.
abbrev pub copied_columns : Fields → Fields
copied_columns p = field "identifier" (get_or_empty "identifier" p) (
    field "fact_text" (get_or_empty "fact_text" p) (
      field "embedding_dim" (or_value "embedding_dim" p (num false 0 0)) (
        field "embedding_model" (or_value "embedding_model" p (str "")) (
          field "source" (or_value "source" p (str "")) (
            field "metadata_json" (or_value "metadata_json" p (str "{}")) (
              field "ttl_seconds" (get "ttl_seconds" p) (
                field "tier" (or_value "tier" p (str "hot")) (
                  field "memory_type" (or_value "memory_type" p (str "fact")) (
                    field "source_uri" (or_value "source_uri" p (str "")) (
                      field "source_format" (or_value "source_format" p (str "")) (
                        field "source_checksum" (or_value "source_checksum" p (str "")) (
                          field "byte_offset" (get "byte_offset" p) (
                            field "byte_length" (get "byte_length" p) (
                              field "promotion_state" (or_value "promotion_state" p (str "HOT")) (
                                field "promotion_candidate" (bool_int (get "promotion_candidate" p))
                                  (field "tags" (or_value "tags" p (str "[]")) (
                                    field "fact_summary" (get "fact_summary" p) (
                                      field "provenance_json" (get "provenance_json" p) (
                                        field "snapshot_id" (or_value "snapshot_id" p (str "")) (
                                          field "parent_memory"
                                            (or_value "parent_memory" p (str ""))
                                            (field "related_memories"
                                              (or_value "related_memories" p (str "[]"))
                                              (field "created_at" (get "created_at" p) (
                                                field "updated_at" (get "updated_at" p)
                                                  end)))))))))))))))))))))))

-- `_event_to_memory_record`
unfoldable pub event_to_memory_record : Driver → Fields → Result Raised (Option Row)
event_to_memory_record d p = if not (truthy (get "id" p)) then ok none else do
  embedding ←
      if truthy (get "embedding_b64" p)
      then or_raise (d.b64decode (get "embedding_b64" p))
      else ok d.no_bytes
  importance ←
      unless_null (get "importance" p) (num false 5 1) (or_raise (d.to_float (get "importance" p)))
  schema_version ←
      unless_null (get "schema_version" p) (num false 1 0)
        (or_raise (d.to_int (get "schema_version" p)))
  ok (
      some (record {
        id = d.text (get "id" p);
        namespace = d.text (or_value "namespace" p (str ""));
        content_hash = d.text (or_value "content_hash" p (str ""));
        columns = field "embedding" embedding (
            field "importance" importance
              (field "schema_version" schema_version (copied_columns p)));
      }))
