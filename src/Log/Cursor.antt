-- ===== src/Log/Cursor.antt =====
-- `ReplayCursor` and `validate_replay_cursor` of src/hotmem/events.py, for a replay without a target.
pub mod Types
use hot_mem.Prelude.{
  ℕ, zero, suc, String, Bool, true, false, ◌&&◌, ◌||◌, not, Option, none, some, List, [], ◌∷◌,
  if◌then◌else◌, keep, any, contains, is_empty, ltb, ◌==◌, ◌=ₛ◌, Result, ok, err, ◌>>=◌, ◌>>◌,
  raise_if,
}
use hot_mem.Prelude.Strings.{is_blank}
use hot_mem.Events.Types.{reconstructing_event_types}
use hot_mem.Log.Tables.{LogRow, Database, event_at_seq, event_log_bounds}
use Types.{
  ReplayCursor, CursorError, no_persistent_identity, legacy_history_unanchored, wrong_source,
  replaced_history, incompatible_base, scope_mismatch, non_reconstructing_event_type, stale_base,
  default_replay_event_types, normalize_event_types, same_texts, post_init,
}

-- What `mount_identity` returns of the source.
pub record Identity : Type 0 where
  pub mount_id : String
  pub replica_id : String
  pub history_id : String
  pub base_snapshot_id : String
  pub legacy_history : Bool

-- `_require_persistent_identity`
abbrev pub require_persistent_identity : Identity → Result CursorError (Unit {0})
require_persistent_identity i =
    raise_if (is_blank i.mount_id || is_blank i.replica_id || is_blank i.history_id)
      no_persistent_identity

-- The source is the one that the cursor was issued for.
unfoldable pub check_issuer : Bool → Identity → ReplayCursor → Result CursorError (Unit {0})
check_issuer allow_legacy_history i c = do
  raise_if (not allow_legacy_history && i.legacy_history) legacy_history_unanchored
  raise_if (not (c.mount_id =ₛ i.mount_id)) wrong_source
  raise_if (not (c.replica_id =ₛ i.replica_id) || not (c.history_id =ₛ i.history_id))
      replaced_history
  raise_if (not (is_blank i.base_snapshot_id) && not (c.base_snapshot_id =ₛ i.base_snapshot_id))
      incompatible_base
  raise_if (not (is_blank c.base_snapshot_id) && not (c.base_snapshot_id =ₛ i.base_snapshot_id))
      incompatible_base

-- `namespace is not None and namespace != decoded.namespace`
abbrev pub other_namespace : Option String → Option String → Bool
other_namespace none scope = false
other_namespace (some ns) none = true
other_namespace (some ns) (some scope) = not (ns =ₛ scope)

abbrev pub has_observational : List String → Bool
has_observational types = any (λ t. not (contains reconstructing_event_types t)) types

-- A cursor of the default scope from before the other event types existed.
abbrev pub legacy_default_scope : ReplayCursor → Bool
legacy_default_scope c =
    c.scope_mode =ₛ "legacy" && same_texts c.event_types default_replay_event_types

abbrev pub check_event_types : Option (List String) → ReplayCursor → Result CursorError (Unit {0})
check_event_types none c = ok tt
check_event_types (some types) c = do
  normal ← normalize_event_types types
  raise_if (has_observational normal) non_reconstructing_event_type
  raise_if
      (not (same_texts normal c.event_types)
        && not (legacy_default_scope c && same_texts normal reconstructing_event_types))
      scope_mismatch

-- The requested scope is the cursor's.
unfoldable pub check_scope :
    Option String → Option (List String) → ReplayCursor → Result CursorError (Unit {0})
check_scope namespace event_types c = do
  raise_if (other_namespace namespace c.namespace) scope_mismatch
  check_event_types event_types c
  raise_if (has_observational c.event_types) non_reconstructing_event_type

abbrev pub check_anchor : ReplayCursor → Option LogRow → Result CursorError (Unit {0})
check_anchor c none = err stale_base
check_anchor c (some e) = raise_if (not (e.event_id =ₛ c.anchor_event_id)) incompatible_base

-- The log still has the cursor's event.
unfoldable pub check_reach : Database → ReplayCursor → Result CursorError (Unit {0})
check_reach db c = do
  raise_if (ltb c.seq (event_log_bounds db).trimmed_through_seq) stale_base
  raise_if (ltb (event_log_bounds db).max_seq c.seq) stale_base
  if ltb 0 c.seq then check_anchor c (event_at_seq c.seq db.events) else ok tt

-- `head_seq == 0 and trimmed_through == 0`
abbrev pub is_empty_history : Database → Bool
is_empty_history db =
    (event_log_bounds db).head_seq == 0 && (event_log_bounds db).trimmed_through_seq == 0

-- The log and its tombstones reach back to the cursor.
unfoldable pub check_window : Database → ReplayCursor → Result CursorError (Unit {0})
check_window db c = do
  raise_if
      (ltb 0 db.compacted_tombstones_through_seq && ltb c.seq db.compacted_tombstones_through_seq)
      stale_base
  if is_empty_history db then raise_if (ltb 0 c.seq) stale_base else check_reach db c

-- The arguments of `validate_replay_cursor` beside the store and the cursor.
pub record Asked : Type 0 where
  pub namespace : Option String
  pub event_types : Option (List String)
  pub allow_legacy_history : Bool

unfoldable pub validate_replay_cursor :
    Identity → Asked → Database → ReplayCursor → Result CursorError ReplayCursor
validate_replay_cursor i asked db fields = do
  c ← post_init fields
  require_persistent_identity i
  check_issuer asked.allow_legacy_history i c
  check_scope asked.namespace asked.event_types c
  check_window db c
  ok c

-- `_effective_replay_event_types`
unfoldable pub effective_replay_event_types :
    ReplayCursor → Option (List String) → Result CursorError (List String)
effective_replay_event_types c (some types) = normalize_event_types types
effective_replay_event_types c none =
    ok (if legacy_default_scope c then reconstructing_event_types else c.event_types)
