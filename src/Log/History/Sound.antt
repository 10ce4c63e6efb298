-- ===== src/Log/History/Sound.antt =====
-- The invariant of the log of src/hotmem/db.py, which each call keeps.
use mathlib.Core.List.{Memᴰ}
use hot_mem.Prelude.{
  ℕ, suc, ◌≤◌, ◌<◌, ◌≡◌, refl, ap, inl, inr, Bool, not, List, [], ◌∷◌, ◌++◌, keep, Result, arith,
}
use hot_mem.Prelude.Membership.{Memᴰ-snoc, Memᴰ-keep}
use hot_mem.Json.{Fields}
use hot_mem.Log.Tables.{LogRow, Database, with_event, newest}
use hot_mem.Log.Trim.{delete_events, trim_events_before_seq, trim_events_by_count}
use hot_mem.Log.Compact.{CompactRequest, effective_seq, new_watermark, remove_candidates}
use hot_mem.Log.Compact.Safe.{
  Outcome, nothing, removed, compact_tombstones-Outcome, effective_seq-le,
}
use hot_mem.Log.Append.{Origin, Host}
use hot_mem.Log.Delete.{MutationError, DeleteRequest}
use hot_mem.Log.Delete.Outcome.{
  Deletion, refused, repeated, deleted, append_event-eq-ok, delete_memory_record-Deletion,
}
use hot_mem.Log.Stream.Pages.{Ascending, Ascending-keep}
use hot_mem.Log.History.{
  Step, appends, trims_before, trims_count, compacts, deletes, Run, stops, goes, note_trim-Trimmed,
}

-- The numbers rise along the table, none is above the last that was given, and tombstones are
-- compacted no further than the log is trimmed.
pub record IsLog (db : Database) : Type 0 where
  pub ascending : Ascending 0 db.events
  pub bounded : (e : LogRow) → Memᴰ e db.events → e.seq ≤ db.last_seq
  pub compacted : db.compacted_tombstones_through_seq ≤ db.trimmed_through_seq

Ascending-snoc :
    (n : ℕ) (es : List LogRow) (e : LogRow)
    → Ascending n es
    → n < e.seq
    → ((f : LogRow) → Memᴰ f es → f.seq < e.seq)
    → Ascending n (es ++ e ∷ [])
Ascending-snoc n [] e h above below = (above, tt)
Ascending-snoc n (x ∷ es) e (first, rest) above below = (
  first,
  Ascending-snoc x.seq es e rest (below x (Memᴰ.head refl)) (λ f m. below f (Memᴰ.tail m)),
)

with_event-IsLog :
    (row : LogRow) (db : Database)
    → row.seq ≡ suc db.last_seq
    → IsLog db
    → IsLog (with_event row db)
with_event-IsLog row db numbered h = record {
  ascending =
      Ascending-snoc 0 db.events row h.ascending (omega (arith, numbered))
        (λ f m. omega (arith, numbered, h.bounded f m));
  bounded = λ e m. elim (Memᴰ-snoc db.events row m) [
    | inl here ↦ rw here (omega arith)
    | inr there ↦ omega (arith, numbered, h.bounded e there)
  ];
  compacted = h.compacted;
}

delete_events-IsLog :
    (doomed : LogRow → Bool) (db : Database) → IsLog db → IsLog (delete_events doomed db).0
unfolding delete_events
delete_events-IsLog doomed db h =
    let left : Database = record db { events = keep (λ e. not (doomed e)) db.events } in
    let t = note_trim-Trimmed (keep doomed db.events) (newest db.events) left in
    record {
      ascending = rw t.events (Ascending-keep (λ e. not (doomed e)) 0 db.events h.ascending);
      bounded = λ e m.
          rw t.last_seq
            (h.bounded e (Memᴰ-keep (λ f. not (doomed f)) db.events (rw (← t.events) m)).0);
      compacted = omega (arith, t.compacted, t.earlier, h.compacted);
    }

new_watermark-le :
    (r : CompactRequest) (db : Database)
    → effective_seq r db ≤ db.trimmed_through_seq
    → db.compacted_tombstones_through_seq ≤ db.trimmed_through_seq
    → new_watermark r db ≤ db.trimmed_through_seq
new_watermark-le r db h k = ground arith

Outcome-IsLog : (db db' : Database) (r : CompactRequest) → Outcome r db db' → IsLog db → IsLog db'
unfolding remove_candidates
Outcome-IsLog db db' r (nothing same) h = rw same h
Outcome-IsLog db db' r (removed guard checked same) h = rw same (record {
  ascending = h.ascending;
  bounded = h.bounded;
  compacted = new_watermark-le r db (effective_seq-le r db guard) h.compacted;
})

Deletion-IsLog :
    (h : Host) (o : Origin) (r : DeleteRequest) (db : Database)
    (out : Result MutationError Fields × Database)
    → Deletion h o r db out
    → IsLog db
    → IsLog out.1
Deletion-IsLog h o r db out (refused e) i = i
Deletion-IsLog h o r db out (repeated op e same) i = i
Deletion-IsLog h o r db out (deleted row ev found e) i =
    let j = with_event-IsLog ev db (ap (λ (x : LogRow). x.seq) e) i in
    record { ascending = j.ascending; bounded = j.bounded; compacted = j.compacted }

-- Whatever an append, a trim, a compaction or a deletion does, the numbers of the events keep rising
-- along the table, none is above the last that was given, and the tombstones are compacted no
-- further than the log is trimmed.
pub Step-IsLog : {db next : Database} → Step db next → IsLog db → IsLog next
unfolding trim_events_before_seq trim_events_by_count
Step-IsLog {db} (appends h o e db' row c) i =
    let (same, numbered) = append_event-eq-ok h o e db db' row c in
    rw same (with_event-IsLog row db (ap (λ (x : LogRow). x.seq) numbered) i)
Step-IsLog {db} (trims_before n) i = delete_events-IsLog _ db i
Step-IsLog {db} (trims_count n) i = delete_events-IsLog _ db i
Step-IsLog {db} (compacts r db' c e) i =
    Outcome-IsLog db db' r (compact_tombstones-Outcome r db db' c e) i
Step-IsLog {db} (deletes h o r) i =
    Deletion-IsLog h o r db _ (delete_memory_record-Deletion h o r db) i

pub Run-IsLog : {db last : Database} → Run db last → IsLog db → IsLog last
Run-IsLog stops i = i
Run-IsLog (goes s run) i = Run-IsLog run (Step-IsLog s i)
