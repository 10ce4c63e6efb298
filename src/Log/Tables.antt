-- ===== src/Log/Tables.antt =====
-- The tables of src/hotmem/db.py that hold the log, the tombstones and the operation ledger, and the
-- statements that read and write them.
use Prim.Native.String.{compare}
use Prim.Native.Nat.{Ordering}
use hot_mem.Prelude.{
  ℕ, suc, String, Bool, true, false, ◌&&◌, ◌||◌, not, Option, none, some, List, [], ◌∷◌, ◌++◌,
  if◌then◌else◌, keep, any, contains, length, ltb, ◌==◌, ◌=ₛ◌, Result, ok, ◌>>◌, raise_if,
}
use hot_mem.Prelude.Strings.{is_blank}
use hot_mem.Json.{Fields}
use hot_mem.Delta.Store.{Row}
use hot_mem.Events.State.{Map, Mark}
use hot_mem.Events.Target.{TombRow, Raised, constraint}

-- A row of `events`, with the dictionary that its column of JSON encodes.
pub record LogRow : Type 0 where
  pub seq : ℕ
  pub event_id : String
  pub memory_id : Option String
  pub namespace : String
  pub event_type : String
  pub occurred_at : String
  pub payload : Fields

-- A row of `operation_ledger`, with the dictionary that `response_json` encodes.
pub record LedgerRow : Type 0 where
  pub caller_id : String
  pub namespace : String
  pub operation_key : String
  pub operation_name : String
  pub request_hash : String
  pub memory_id : String
  pub content_hash : String
  pub response : Fields
  pub created_at : String

-- A row of `memory_tombstones` under its key.
abbrev pub Tombstone : Type 0
Tombstone = String × TombRow

-- The tables, the events in the order of their primary key; a number of `store_meta` that is not
-- set reads as 0, and `last_seq` is what SQLite keeps for the key of `events`, which is
-- AUTOINCREMENT.
pub record Database : Type 0 where
  pub rows : List Row
  pub events : List LogRow
  pub last_seq : ℕ
  pub tombstones : List Tombstone
  pub marks : Map Mark
  pub ledger : List LedgerRow
  pub trimmed_through_seq : ℕ
  pub last_known_head_seq : ℕ
  pub last_known_head_event_id : String
  pub compacted_tombstones_through_seq : ℕ

-- `max(a, b)` and `min(a, b)`
abbrev pub max : ℕ → ℕ → ℕ
max a b = if ltb a b then b else a

abbrev pub min : ℕ → ℕ → ℕ
min a b = if ltb b a then b else a

-- `SELECT MAX(seq)`, and 0 for no row
abbrev pub max_seq : List LogRow → ℕ
max_seq [] = 0
max_seq (e ∷ es) = max e.seq (max_seq es)

-- `ORDER BY seq DESC LIMIT 1`
abbrev pub newest : List LogRow → Option LogRow
newest [] = none
newest (e ∷ es) = elim (newest es) [
  | none ↦ some e
  | some other ↦ if ltb other.seq e.seq then some e else some other
]

-- `MIN(seq)`, and 0 for no row
abbrev pub min_seq : List LogRow → ℕ
min_seq [] = 0
min_seq (e ∷ []) = e.seq
min_seq (e ∷ f ∷ es) = min e.seq (min_seq (f ∷ es))

-- `event_at_seq`
unfoldable pub event_at_seq : ℕ → List LogRow → Option LogRow
event_at_seq n [] = none
event_at_seq n (e ∷ es) = let found = event_at_seq n es in if e.seq == n then some e else found

-- What `event_log_bounds` returns, but for the flag of a legacy history, which is the mount's.
pub record Bounds : Type 0 where
  pub event_count : ℕ
  pub min_seq : ℕ
  pub max_seq : ℕ
  pub head_seq : ℕ
  pub head_event_id : String
  pub trimmed_through_seq : ℕ

abbrev pub id_or_empty : Option LogRow → String
id_or_empty none = ""
id_or_empty (some e) = e.event_id

unfoldable pub event_log_bounds : Database → Bounds
event_log_bounds db = record {
  event_count = length db.events;
  min_seq = min_seq db.events;
  max_seq = max_seq db.events;
  head_seq = max (max (max_seq db.events) db.trimmed_through_seq) db.last_known_head_seq;
  head_event_id =
      if ltb 0 (max_seq db.events)
      then id_or_empty (event_at_seq (max_seq db.events) db.events)
      else if ltb 0 db.last_known_head_seq
      then db.last_known_head_event_id
      else "";
  trimmed_through_seq = db.trimmed_through_seq;
}

-- What `append_event` of `MemoryDB` is called with.
pub record NewEvent : Type 0 where
  pub event_type : String
  pub event_id : String
  pub memory_id : Option String
  pub namespace : String
  pub occurred_at : String
  pub payload : Fields

-- The row's number is one above the largest ever given.
abbrev pub numbered : NewEvent → Database → LogRow
numbered e db = record {
  seq = suc db.last_seq;
  event_id = e.event_id;
  memory_id = e.memory_id;
  namespace = e.namespace;
  event_type = e.event_type;
  occurred_at = e.occurred_at;
  payload = e.payload;
}

abbrev pub with_event : LogRow → Database → Database
with_event row db = record db { events = db.events ++ row ∷ []; last_seq = row.seq }

-- `append_event` of `MemoryDB`: the column `event_id` is UNIQUE.
unfoldable pub insert_event : NewEvent → Database → Result Raised (Database × LogRow)
insert_event e db = do
  raise_if (any (λ row. row.event_id =ₛ e.event_id) db.events) constraint
  ok (with_event (numbered e db) db, numbered e db)

-- `memory_id = ?`: no number is equal to NULL.
abbrev pub is_of : String → LogRow → Bool
is_of id e = elim e.memory_id [ none ↦ false | some mid ↦ mid =ₛ id ]

-- `has_events_at_or_before_seq` for one memory
unfoldable pub has_events_at_or_before_seq : ℕ → String → List LogRow → Bool
has_events_at_or_before_seq n id = any (λ e. ltb e.seq (suc n) && is_of id e)

-- `get_tombstone`
unfoldable pub get_tombstone : String → List Tombstone → Option TombRow
get_tombstone id [] = none
get_tombstone id ((key, tomb) ∷ rest) =
    let found = get_tombstone id rest in if key =ₛ id then some tomb else found

-- `record_tombstone`: `ON CONFLICT(memory_id) DO UPDATE`
unfoldable pub put_tombstone : String → TombRow → List Tombstone → List Tombstone
put_tombstone id tomb [] = (id, tomb) ∷ []
put_tombstone id tomb ((key, old) ∷ rest) =
    let tail = put_tombstone id tomb rest in
    if key =ₛ id then (id, tomb) ∷ rest else (key, old) ∷ tail

-- `delete_tombstones`: the ids that are not empty, and how many rows went.
unfoldable pub delete_tombstones : List String → List Tombstone → List Tombstone × ℕ
delete_tombstones ids tombs =
    let clean = keep (λ id. not (is_blank id)) ids in
    (keep (λ t. not (contains clean t.0)) tombs, length (keep (λ t. contains clean t.0) tombs))

-- Texts are compared by their code points.
abbrev pub str_ltb : String → String → Bool
str_ltb a b = elim (compare a b) [ Ordering.lt ↦ true | _ ↦ false ]

-- `ORDER BY deleted_at_seq ASC, memory_id ASC`
abbrev pub sorts_before : Tombstone → Tombstone → Bool
sorts_before (a, s) (b, t) =
    ltb s.deleted_at_seq t.deleted_at_seq || s.deleted_at_seq == t.deleted_at_seq && str_ltb a b

abbrev pub insert_tombstone : Tombstone → List Tombstone → List Tombstone
insert_tombstone t [] = t ∷ []
insert_tombstone t (u ∷ us) =
    let tail = insert_tombstone t us in if sorts_before u t then u ∷ tail else t ∷ u ∷ us

abbrev pub sorted : List Tombstone → List Tombstone
sorted [] = []
sorted (t ∷ ts) = insert_tombstone t (sorted ts)

-- `namespace = ?`, where one is given
abbrev pub of_namespace : Option String → Tombstone → Bool
of_namespace none t = true
of_namespace (some ns) t = t.1.namespace =ₛ ns

-- `list_tombstones`
unfoldable pub list_tombstones : Option String → List Tombstone → List Tombstone
list_tombstones ns tombs = sorted (keep (of_namespace ns) tombs)
