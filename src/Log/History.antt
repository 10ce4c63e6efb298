-- ===== src/Log/History.antt =====
-- The log of src/hotmem/db.py over time: what the operations of src/hotmem/events.py leave of it.
pub mod Sound
pub mod Complete
use mathlib.Core.List.{Memᴰ}
use hot_mem.Prelude.{
  ℕ, suc, ◌≤◌, ◌<◌, String, ◌≡◌, refl, sym, ap, ◌∙◌, inl, inr, Bool, true, false, not, Option, none,
  some, List, [], ◌∷◌, ◌++◌, if◌then◌else◌, keep, any, length, ltb, leb, Bool-cases, Result, ok,
  err, raise_if, >>=-eq-ok, raise_if-eq-ok, ok-injective, Result-cases, Option-cases, arith, ◌=ₛ◌,
}
use hot_mem.Prelude.Membership.{Memᴰ-cons, Memᴰ-append, Memᴰ-snoc, Memᴰ-keep, keep-Memᴰ}
use hot_mem.Json.{Fields}
use hot_mem.Delta.Store.{Row, get_memory}
use hot_mem.Events.Target.{Raised, constraint}
use hot_mem.Log.Tables.{
  LogRow, Database, NewEvent, numbered, with_event, insert_event, max, max_seq, newest,
}
use hot_mem.Log.Trim.{
  note_head, note_trim, delete_events, count_above, trim_events_before_seq, trim_events_by_count,
}
use hot_mem.Log.Compact.{Compaction, CompactRequest, remove_candidates, compact_tombstones}
use hot_mem.Log.Compact.Safe.{Outcome, nothing, removed, compact_tombstones-Outcome}
use hot_mem.Log.Append.{Origin, Host, Entry, append_event}
use hot_mem.Log.Delete.Outcome.{
  Deletion, refused, repeated, deleted, append_event-eq-ok, delete_memory_record-Deletion,
}
use hot_mem.Log.Delete.{
  MutationError, DeleteRequest, delete_body, delete_fresh, in_transaction, recorded_delete,
  delete_memory_record, delete_entry, without_row, bury, delete_result,
}

-- One call that writes the log or its tombstones.
pub data Step (db : Database) : Database → Type 0 where
  appends :
      (h : Host) (o : Origin) (e : Entry) (db' : Database) (row : LogRow)
      → append_event h o e db ≡ ok (db', row)
      → Step db db'
  trims_before : (n : ℕ) → Step db (trim_events_before_seq n db).0
  trims_count : (n : ℕ) → Step db (trim_events_by_count n db).0
  compacts :
      (r : CompactRequest) (db' : Database) (c : Compaction)
      → compact_tombstones r db ≡ ok (db', c)
      → Step db db'
  deletes : (h : Host) (o : Origin) (r : DeleteRequest) → Step db (delete_memory_record h o r db).1

-- Any number of calls.
pub data Run : Database → Database → Type 0 where
  stops : {db : Database} → Run db db
  goes : {db mid last : Database} → Step db mid → Run mid last → Run db last

-- What no call takes back, and the events that no call removes.
pub record Later (db db' : Database) : Type 0 where
  pub trimmed : db.trimmed_through_seq ≤ db'.trimmed_through_seq
  pub compacted : db.compacted_tombstones_through_seq ≤ db'.compacted_tombstones_through_seq
  pub kept : (e : LogRow) → Memᴰ e db.events → db'.trimmed_through_seq < e.seq → Memᴰ e db'.events

Later-refl : (db : Database) → Later db db
Later-refl db = record { trimmed = omega arith; compacted = omega arith; kept = λ e m behind. m }

Later-trans : (a b c : Database) → Later a b → Later b c → Later a c
Later-trans a b c f g = record {
  trimmed = omega (arith, f.trimmed, g.trimmed);
  compacted = omega (arith, f.compacted, g.compacted);
  kept = λ e m behind. g.kept e (f.kept e m (omega (arith, g.trimmed, behind))) behind;
}

max_seq-ge : (es : List LogRow) (e : LogRow) → Memᴰ e es → e.seq ≤ max_seq es
max_seq-ge [] e m = elim m [ ]
max_seq-ge (x ∷ es) e m = elim (Memᴰ-cons m) [
  | inl here ↦ rw here (ground arith)
  | inr there ↦ ground (arith, max_seq-ge es e there)
]

newly_appended : (row : LogRow) (db db' : Database) → db' ≡ with_event row db → Later db db'
newly_appended row db db' same = rw same (record {
  trimmed = omega arith;
  compacted = omega arith;
  kept = λ e m behind. Memᴰ-append (row ∷ []) m;
})

note_head-trimmed :
    (head : Option LogRow) (db : Database)
    → (note_head head db).trimmed_through_seq ≡ db.trimmed_through_seq
note_head-trimmed none db = refl
note_head-trimmed (some head) db = ground arith

-- A trim leaves all fields but its own.
pub record Trimmed (gone : List LogRow) (db db' : Database) : Type 0 where
  pub events : db'.events ≡ db.events
  pub last_seq : db'.last_seq ≡ db.last_seq
  pub compacted : db'.compacted_tombstones_through_seq ≡ db.compacted_tombstones_through_seq
  pub earlier : db.trimmed_through_seq ≤ db'.trimmed_through_seq
  pub newest_gone : max_seq gone ≤ db'.trimmed_through_seq

pub note_trim-Trimmed :
    (gone : List LogRow) (head : Option LogRow) (db : Database)
    → Trimmed gone db (note_trim gone head db)
note_trim-Trimmed [] head db = record {
  events = refl;
  last_seq = refl;
  compacted = refl;
  earlier = omega arith;
  newest_gone = omega arith;
}
note_trim-Trimmed (g ∷ gone) none db = record {
  events = refl;
  last_seq = refl;
  compacted = refl;
  earlier = ground arith;
  newest_gone = ground arith;
}
note_trim-Trimmed (g ∷ gone) (some head) db = record {
  events = ground arith;
  last_seq = ground arith;
  compacted = ground arith;
  earlier = ground arith;
  newest_gone = ground arith;
}

delete_events-Later :
    (doomed : LogRow → Bool) (db : Database) → Later db (delete_events doomed db).0
unfolding delete_events
delete_events-Later doomed db =
    let left : Database = record db { events = keep (λ e. not (doomed e)) db.events } in
    let t = note_trim-Trimmed (keep doomed db.events) (newest db.events) left in
    record {
      trimmed = t.earlier;
      compacted = omega (arith, t.compacted);
      kept = λ e m behind. elim (Bool-cases (doomed e)) [
        | inl gone ↦
            let low = max_seq-ge (keep doomed db.events) e (keep-Memᴰ doomed m gone) in
            absurd (omega (arith, low, t.newest_gone, behind))
        | inr stays ↦ rw t.events (keep-Memᴰ (λ e. not (doomed e)) m (rw stays refl))
      ];
    }

Outcome-Later : (db db' : Database) (r : CompactRequest) → Outcome r db db' → Later db db'
unfolding remove_candidates
Outcome-Later db db' r (nothing same) = rw same (Later-refl db)
Outcome-Later db db' r (removed guard checked same) =
    rw same (record { trimmed = omega arith; compacted = ground arith; kept = λ e m behind. m })

Deletion-Later :
    (h : Host) (o : Origin) (r : DeleteRequest) (db : Database)
    (out : Result MutationError Fields × Database)
    → Deletion h o r db out
    → Later db out.1
Deletion-Later h o r db out (refused e) = Later-refl db
Deletion-Later h o r db out (repeated op e same) = Later-refl db
Deletion-Later h o r db out (deleted row ev found e) = record {
  trimmed = omega arith;
  compacted = omega arith;
  kept = λ f m behind. Memᴰ-append (ev ∷ []) m;
}

pub Step-Later : {db next : Database} → Step db next → Later db next
unfolding trim_events_before_seq trim_events_by_count
Step-Later {db} (appends h o e db' row c) =
    newly_appended row db db' (append_event-eq-ok h o e db db' row c).0
Step-Later {db} (trims_before n) = delete_events-Later _ db
Step-Later {db} (trims_count n) = delete_events-Later _ db
Step-Later {db} (compacts r db' c e) =
    Outcome-Later db db' r (compact_tombstones-Outcome r db db' c e)
Step-Later {db} (deletes h o r) = Deletion-Later h o r db _ (delete_memory_record-Deletion h o r db)

pub Run-Later : {db last : Database} → Run db last → Later db last
Run-Later {db} stops = Later-refl db
Run-Later {db} {last} (goes {mid = mid} s run) =
    Later-trans db mid last (Step-Later s) (Run-Later run)
