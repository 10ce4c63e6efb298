-- ===== src/Log/History/Complete.antt =====
-- A stream from a cursor that src/hotmem/events.py accepts misses nothing.
use mathlib.Core.List.{Memᴰ}
use hot_mem.Prelude.{
  ◌≤◌, ◌<◌, ◌≡◌, refl, inl, inr, Bool, true, ◌&&◌, Option, none, some, List, [], ◌∷◌, keep, length,
  ltb, Bool-cases, ok, raise_if, >>=-eq-ok, >>-eq-ok, raise_if-eq-ok, ok-injective, arith,
  if◌then◌else◌, String, contains, ◌=ₛ◌,
}
use hot_mem.Prelude.Membership.{keep-Memᴰ}
use hot_mem.Log.Tables.{LogRow, Database, event_log_bounds}
use hot_mem.Log.Cursor.Types.{ReplayCursor, stale_base, post_init}
use hot_mem.Log.Cursor.{
  Identity, Asked, require_persistent_identity, check_issuer, check_scope, check_window,
  is_empty_history, check_reach, validate_replay_cursor, effective_replay_event_types,
}
use hot_mem.Log.Stream.{clause, matches, page_query, is_allowed, rounds_for, asked_for, replay}
use hot_mem.Log.Stream.Pages.{stream_pages_lem}
use hot_mem.Events.Target.{TombRow}
use hot_mem.Log.Compact.{Compaction, CompactRequest, compact_tombstones}
use hot_mem.Log.Compact.Safe.{compact_tombstones-Removable}
use hot_mem.Log.History.{Run, Run-Later}
use hot_mem.Log.History.Sound.{IsLog, Run-IsLog}
use mathlib.Core.Path.{subst}

check_reach-trimmed :
    (db : Database) (c : ReplayCursor) → check_reach db c ≡ ok tt → db.trimmed_through_seq ≤ c.seq
unfolding check_reach event_log_bounds
check_reach-trimmed db c h =
    let (behind, _) = raise_if-eq-ok (ltb c.seq db.trimmed_through_seq) stale_base _ h in
    ground (arith, behind)

empty_history-trimmed : (db : Database) → is_empty_history db ≡ true → db.trimmed_through_seq ≡ 0
unfolding event_log_bounds
empty_history-trimmed db h = ground (arith, h)

check_window-trimmed :
    (db : Database) (c : ReplayCursor)
    → (if is_empty_history db then raise_if (ltb 0 c.seq) stale_base else check_reach db c) ≡ ok tt
    → db.trimmed_through_seq ≤ c.seq
check_window-trimmed db c h = elim (Bool-cases (is_empty_history db)) [
  | inl e ↦ omega (arith, empty_history-trimmed db e)
  | inr e ↦
      check_reach-trimmed db c (
        subst (λ b. (if b then raise_if (ltb 0 c.seq) stale_base else check_reach db c) ≡ ok tt) e
          h)
]

-- The position of an accepted cursor is behind no watermark.
pub check_window-Reaches :
    (db : Database) (c : ReplayCursor)
    → check_window db c ≡ ok tt
    → (db.trimmed_through_seq ≤ c.seq) × (db.compacted_tombstones_through_seq ≤ c.seq)
unfolding check_window
check_window-Reaches db c h =
    let (fresh, rest) =
      raise_if-eq-ok
        (ltb 0 db.compacted_tombstones_through_seq && ltb c.seq db.compacted_tombstones_through_seq)
        stale_base _ h in
    (check_window-trimmed db c rest, ground (arith, fresh))

-- An accepted cursor is the one that its fields make, and it passed the check of the window.
pub validate_replay_cursor-Accepted :
    (i : Identity) (asked : Asked) (db : Database) (fields c : ReplayCursor)
    → validate_replay_cursor i asked db fields ≡ ok c
    → (post_init fields ≡ ok c)
      × (check_issuer asked.allow_legacy_history i c ≡ ok tt)
      × (check_scope asked.namespace asked.event_types c ≡ ok tt)
      × (check_window db c ≡ ok tt)
unfolding validate_replay_cursor
validate_replay_cursor-Accepted i asked db fields c h =
    let (d, made, h1) = >>=-eq-ok (post_init fields) _ h in
    let (_, h2) = >>-eq-ok (require_persistent_identity i) _ h1 in
    let (source, h3) = >>-eq-ok (check_issuer asked.allow_legacy_history i d) _ h2 in
    let (scope, h4) = >>-eq-ok (check_scope asked.namespace asked.event_types d) _ h3 in
    let (window, h5) = >>-eq-ok (check_window db d) _ h4 in
    let same : c ≡ d = ok-injective h5 in
    (rw same made, rw same source, rw same scope, rw same window)

-- What a stream yields: the events behind the cursor's position, in its namespace, of its types.
abbrev pub behind_cursor : ReplayCursor → List String → Database → List LogRow
behind_cursor c types db =
    keep (is_allowed (some types)) (keep (matches (page_query c.namespace c.seq)) db.events)

keep-length : (p : LogRow → Bool) (es : List LogRow) → length (keep p es) ≤ length es
keep-length p [] = omega arith
keep-length p (e ∷ es) = ground (arith, keep-length p es)

-- Of a log in order, a stream from a cursor that is accepted ends and yields, in their order, the
-- events behind the cursor's position that have its namespace, where it names one, and one of its
-- event types: the pages neither repeat an event nor leave one out.
pub replay_lem :
    (i : Identity) (ns : Option String) (fields c : ReplayCursor) (types : List String)
    (db : Database)
    → IsLog db
    → validate_replay_cursor i (asked_for ns) db fields ≡ ok c
    → effective_replay_event_types c none ≡ ok types
    → replay i ns fields db ≡ ok (some (behind_cursor c types db))
unfolding replay
replay_lem i ns fields c types db log valid scope =
    let pages =
      stream_pages_lem (rounds_for db.events) 499 c.namespace (some types) c.seq db.events
        log.ascending
        (omega (arith, keep-length (matches (page_query c.namespace c.seq)) db.events)) in
    rw (valid, scope, pages) refl

matches-page :
    (c : ReplayCursor) (e : LogRow)
    → c.seq < e.seq
    → clause c.namespace (λ ns. e.namespace =ₛ ns) ≡ true
    → matches (page_query c.namespace c.seq) e ≡ true
unfolding matches
matches-page c e behind same = ground (arith, behind, same)

-- An event that was in the log at some time, whatever appends, trims, compactions and deletions came
-- since, is in the stream from each cursor that is accepted now, if it is behind the cursor's
-- position and has its namespace and one of its types; the stream ends.
pub replay_complete :
    (i : Identity) (ns : Option String) (fields c : ReplayCursor) (types : List String)
    (db last : Database) (e : LogRow)
    → IsLog db
    → Run db last
    → validate_replay_cursor i (asked_for ns) last fields ≡ ok c
    → effective_replay_event_types c none ≡ ok types
    → Memᴰ e db.events
    → c.seq < e.seq
    → clause c.namespace (λ n. e.namespace =ₛ n) ≡ true
    → contains types e.event_type ≡ true
    → (stream : List LogRow) × (replay i ns fields last ≡ ok (some stream)) × Memᴰ e stream
replay_complete i ns fields c types db last e log run valid scope was behind same typed =
    let (_, _, _, window) = validate_replay_cursor-Accepted i (asked_for ns) last fields c valid in
    let (reaches, _) = check_window-Reaches last c window in
    let still = (Run-Later run).kept e was (omega (arith, reaches, behind)) in
    (
      behind_cursor c types last,
      replay_lem i ns fields c types last (Run-IsLog run log) valid scope,
      keep-Memᴰ (is_allowed (some types))
          (keep-Memᴰ (matches (page_query c.namespace c.seq)) still (matches-page c e behind same))
          typed,
    )

-- A tombstone that a compaction has removed, and that was the only one of its id, is behind no
-- cursor that is accepted at that time or later: each is at the deletion's number or further.
pub compact_tombstones_passed :
    (i : Identity) (asked : Asked) (fields c : ReplayCursor) (r : CompactRequest)
    (db db' last : Database) (done : Compaction) (id : String) (t : TombRow)
    → compact_tombstones r db ≡ ok (db', done)
    → Memᴰ (id, t) db.tombstones
    → ((u : TombRow) → Memᴰ (id, u) db.tombstones → u ≡ t)
    → ¬ Memᴰ (id, t) db'.tombstones
    → Run db' last
    → validate_replay_cursor i asked last fields ≡ ok c
    → t.deleted_at_seq ≤ c.seq
compact_tombstones_passed i asked fields c r db db' last done id t h at only gone run valid =
    let noted = (compact_tombstones-Removable r db db' done id t h at only gone).noted in
    let (_, _, _, window) = validate_replay_cursor-Accepted i asked last fields c valid in
    let (_, reaches) = check_window-Reaches last c window in
    omega (arith, noted, (Run-Later run).compacted, reaches)
