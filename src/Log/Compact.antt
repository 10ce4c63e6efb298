-- ===== src/Log/Compact.antt =====
-- `compact_tombstones` of src/hotmem/events.py.
pub mod Safe
use hot_mem.Prelude.{
  ℕ, zero, suc, String, Bool, true, false, ◌&&◌, not, Option, none, some, List, [], ◌∷◌,
  if◌then◌else◌, map, keep, any, length, ltb, leb, Result, ok, err, ◌>>=◌, ◌>>◌, raise_if,
}
use hot_mem.Delta.Store.{get_memory}
use hot_mem.Log.Tables.{
  Database, Tombstone, max, min, has_events_at_or_before_seq, delete_tombstones, list_tombstones,
}

-- The reasons of a `TombstoneCompactionError`, without the texts for people.
pub data CompactionError : Type 0 where
  unacknowledged_tombstone_horizon events_not_trimmed_through_tombstone live_record_conflict :
      CompactionError

-- What `compact_tombstones` returns.
pub record Compaction : Type 0 where
  pub compacted : ℕ
  pub remaining : ℕ
  pub compacted_through_seq : ℕ

-- The arguments; a negative number is a `ValueError` and no natural number.
pub record CompactRequest : Type 0 where
  pub through_seq : ℕ
  pub acked_cursor_seq : Option ℕ
  pub namespace : Option String
  pub strict : Bool

abbrev pub beyond : ℕ → Option ℕ → Bool
beyond n none = false
beyond n (some acked) = ltb acked n

abbrev pub clamp : ℕ → Option ℕ → ℕ
clamp n none = n
clamp n (some acked) = min n acked

abbrev pub effective_seq : CompactRequest → Database → ℕ
effective_seq r db =
    if r.strict
    then r.through_seq
    else clamp (min r.through_seq db.trimmed_through_seq) r.acked_cursor_seq

abbrev pub up_to : ℕ → Tombstone → Bool
up_to n t = leb t.1.deleted_at_seq n

abbrev pub candidates : CompactRequest → Database → List Tombstone
candidates r db = keep (up_to (effective_seq r db)) (list_tombstones r.namespace db.tombstones)

abbrev pub is_live : String → Database → Bool
is_live id db = elim (get_memory id db.rows) [ none ↦ false | some row ↦ true ]

-- The checks of one candidate.
unfoldable pub check_candidate : Database → Tombstone → Result CompactionError (Unit {0})
check_candidate db t = do
  raise_if (is_live t.0 db) live_record_conflict
  raise_if (has_events_at_or_before_seq t.1.deleted_at_seq t.0 db.events)
      events_not_trimmed_through_tombstone

unfoldable pub check_candidates : Database → List Tombstone → Result CompactionError (Unit {0})
check_candidates db [] = ok tt
check_candidates db (t ∷ ts) = check_candidate db t >> check_candidates db ts

abbrev pub new_watermark : CompactRequest → Database → ℕ
new_watermark r db =
    if ltb 0 (effective_seq r db)
    then max db.compacted_tombstones_through_seq (effective_seq r db)
    else db.compacted_tombstones_through_seq

-- The tables after the candidates have been deleted.
unfoldable pub remove_candidates : CompactRequest → Database → Database
remove_candidates r db = record db {
  tombstones = (delete_tombstones (map (λ t. t.0) (candidates r db)) db.tombstones).0;
  compacted_tombstones_through_seq = new_watermark r db;
}

abbrev pub remaining_in : CompactRequest → Database → ℕ
remaining_in r db = length (list_tombstones r.namespace db.tombstones)

abbrev pub compaction_of : CompactRequest → Database → Compaction
compaction_of r db = record {
  compacted = (delete_tombstones (map (λ t. t.0) (candidates r db)) db.tombstones).1;
  remaining = remaining_in r (remove_candidates r db);
  compacted_through_seq = new_watermark r db;
}

-- What follows when some tombstone is old enough.
unfoldable pub compact_listed :
    CompactRequest → Database → Result CompactionError (Database × Compaction)
compact_listed r db = do
  raise_if (r.strict && beyond r.through_seq r.acked_cursor_seq) unacknowledged_tombstone_horizon
  raise_if (r.strict && ltb db.trimmed_through_seq r.through_seq)
      events_not_trimmed_through_tombstone
  check_candidates db (candidates r db)
  ok (remove_candidates r db, compaction_of r db)

abbrev pub nothing_compacted : CompactRequest → Database → Compaction
nothing_compacted r db = record {
  compacted = 0;
  remaining = remaining_in r db;
  compacted_through_seq = db.compacted_tombstones_through_seq;
}

unfoldable pub compact_tombstones :
    CompactRequest → Database → Result CompactionError (Database × Compaction)
compact_tombstones r db =
    if not (any (up_to r.through_seq) (list_tombstones r.namespace db.tombstones))
    then ok (db, nothing_compacted r db)
    else compact_listed r db
