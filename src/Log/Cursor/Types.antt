-- ===== src/Log/Cursor/Types.antt =====
-- The fields of a `ReplayCursor` of src/hotmem/events.py and the checks of its construction.
use hot_mem.Prelude.{
  ℕ, String, Bool, true, false, ◌&&◌, ◌||◌, not, Option, none, some, List, [], ◌∷◌, ◌++◌,
  if◌then◌else◌, any, contains, is_empty, length, ltb, ◌==◌, ◌=ₛ◌, Result, ok, ◌>>=◌, ◌>>◌,
  raise_if,
}
use hot_mem.Prelude.Strings.{is_blank, strip, str_len}
use hot_mem.Log.Tables.{str_ltb}

-- The reasons of a `ReplayCursorError`, without the texts for people.
pub data CursorError : Type 0 where
  malformed_cursor unsupported_cursor_version unanchored_sequence : CursorError
  no_persistent_identity legacy_history_unanchored wrong_source replaced_history : CursorError
  incompatible_base scope_mismatch non_reconstructing_event_type stale_base : CursorError

pub record ReplayCursor : Type 0 where
  pub mount_id : String
  pub replica_id : String
  pub history_id : String
  pub seq : ℕ
  pub anchor_event_id : String
  pub base_snapshot_id : String
  pub namespace : Option String
  pub event_types : List String
  pub scope_mode : String
  pub version : ℕ

abbrev pub cursor_version : ℕ
cursor_version = 1

abbrev pub default_replay_event_types : List String
default_replay_event_types = "memory.created" ∷ []

abbrev pub max_cursor_field : ℕ
max_cursor_field = 512

abbrev pub max_cursor_event_types : ℕ
max_cursor_event_types = 256

abbrev pub max_cursor_event_type_len : ℕ
max_cursor_event_type_len = 128

abbrev pub scope_modes : List String
scope_modes = "legacy" ∷ "explicit" ∷ "reconstructing" ∷ []

-- Two tuples of texts are equal.
abbrev pub same_texts : List String → List String → Bool
same_texts [] [] = true
same_texts [] (y ∷ ys) = false
same_texts (x ∷ xs) [] = false
same_texts (x ∷ xs) (y ∷ ys) = x =ₛ y && same_texts xs ys

-- The loop over the entries, with the list `cleaned`.
unfoldable pub clean_types : List String → List String → Result CursorError (List String)
clean_types cleaned [] = ok cleaned
clean_types cleaned (item ∷ items) = do
  raise_if (is_blank (strip item)) malformed_cursor
  clean_types (if contains cleaned (strip item) then cleaned else cleaned ++ strip item ∷ []) items

abbrev pub insert_text : String → List String → List String
insert_text x [] = x ∷ []
insert_text x (y ∷ ys) = let tail = insert_text x ys in if str_ltb y x then y ∷ tail else x ∷ y ∷ ys

-- `sorted(cleaned)`
abbrev pub sort_texts : List String → List String
sort_texts [] = []
sort_texts (x ∷ xs) = insert_text x (sort_texts xs)

-- `_normalize_event_types` of a sequence
unfoldable pub normalize_event_types : List String → Result CursorError (List String)
normalize_event_types types = do
  cleaned ← clean_types [] types
  raise_if (is_empty cleaned) malformed_cursor
  ok (sort_texts cleaned)

abbrev pub too_long : String → Bool
too_long s = ltb max_cursor_field (str_len s)

abbrev pub too_many_types : List String → Bool
too_many_types types =
    ltb max_cursor_event_types (length types)
    || any (λ t. ltb max_cursor_event_type_len (str_len t)) types

abbrev pub namespace_too_long : Option String → Bool
namespace_too_long none = false
namespace_too_long (some ns) = too_long ns

-- The checks of the identity and the position.
unfoldable pub check_position : ReplayCursor → Result CursorError (Unit {0})
check_position c = do
  raise_if (not (c.version == cursor_version)) unsupported_cursor_version
  raise_if
      (is_blank (strip c.mount_id)
        || is_blank (strip c.replica_id)
        || is_blank (strip c.history_id))
      unanchored_sequence
  raise_if (c.seq == 0 && not (is_blank c.anchor_event_id)) malformed_cursor
  raise_if (ltb 0 c.seq && is_blank (strip c.anchor_event_id)) unanchored_sequence
  raise_if
      (any too_long
        (c.mount_id ∷ c.replica_id ∷ c.history_id ∷ c.anchor_event_id ∷ c.base_snapshot_id ∷ []))
      malformed_cursor

-- `__post_init__`
unfoldable pub post_init : ReplayCursor → Result CursorError ReplayCursor
post_init c = do
  check_position c
  types ← normalize_event_types c.event_types
  raise_if (too_many_types types) malformed_cursor
  raise_if (namespace_too_long c.namespace) malformed_cursor
  raise_if (not (contains scope_modes c.scope_mode)) malformed_cursor
  ok (record c { event_types = types })
