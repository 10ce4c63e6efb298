-- ===== src/Log/Trim.antt =====
-- Retention of the log: `trim_events_before_seq` and `trim_events_by_count` of src/hotmem/db.py.
use hot_mem.Prelude.{
  ℕ, suc, Bool, not, Option, none, some, List, [], ◌∷◌, if◌then◌else◌, keep, is_empty, length, ltb,
  leb,
}
use hot_mem.Log.Tables.{LogRow, Database, max, max_seq, newest}

-- `last_known_head_seq` and `last_known_head_event_id`, from the newest row before the deletion.
abbrev pub note_head : Option LogRow → Database → Database
note_head none db = db
note_head (some head) db =
    if leb db.last_known_head_seq head.seq
    then record db { last_known_head_seq = head.seq; last_known_head_event_id = head.event_id }
    else db

-- What is recorded of a trim that deleted some rows.
abbrev pub note_trim : List LogRow → Option LogRow → Database → Database
note_trim gone head db =
    if is_empty gone
    then db
    else note_head head
        (record db { trimmed_through_seq = max db.trimmed_through_seq (max_seq gone) })

-- Both trims, for the rows to delete; with the number of deleted rows.
unfoldable pub delete_events : (LogRow → Bool) → Database → Database × ℕ
delete_events doomed db = (
  note_trim (keep doomed db.events) (newest db.events)
      (record db { events = keep (λ e. not (doomed e)) db.events }),
  length (keep doomed db.events),
)

-- `trim_events_before_seq`
unfoldable pub trim_events_before_seq : ℕ → Database → Database × ℕ
trim_events_before_seq n db = delete_events (λ e. ltb e.seq n) db

abbrev pub count_above : ℕ → List LogRow → ℕ
count_above n [] = 0
count_above n (e ∷ es) = let rest = count_above n es in if ltb n e.seq then suc rest else rest

-- `trim_events_by_count`: a row is among the `n` newest if fewer than `n` rows are newer.
unfoldable pub trim_events_by_count : ℕ → Database → Database × ℕ
trim_events_by_count n db = delete_events (λ e. leb n (count_above e.seq db.events)) db
