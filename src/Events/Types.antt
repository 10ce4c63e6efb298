-- ===== src/Events/Types.antt =====
-- Events, their types and the errors of a replay, and what the replay calls of other modules.
use hot_mem.Prelude.{
  String, Bool, false, not, Option, none, some, List, [], ◌∷◌, if◌then◌else◌, ◌=ₛ◌,
}
use hot_mem.Prelude.Strings.{is_blank}
use hot_mem.Json.{Value, str, Fields}

-- A row of the log as `query_events` returns it, `payload` parsed.
pub record Event : Type 0 where
  pub seq : Value
  pub event_id : Value
  pub event_type : Value
  pub memory_id : Value
  pub namespace : Value
  pub occurred_at : Value
  pub payload : Value

pub data Kind : Type 0 where
  created updated deleted : Kind

-- The position of an event type in `RECONSTRUCTING_EVENT_TYPES`, if it has one.
unfoldable pub kind_of : String → Option Kind
kind_of etype =
    if etype =ₛ "memory.created"
    then some Kind.created
    else if etype =ₛ "memory.updated"
    then some Kind.updated
    else if etype =ₛ "memory.deleted"
    then some Kind.deleted
    else none

abbrev pub reconstructing_event_types : List String
reconstructing_event_types = "memory.created" ∷ "memory.deleted" ∷ "memory.updated" ∷ []

abbrev pub observational_event_types : List String
observational_event_types =
    "memory.deduplicated" ∷ "memory.promotion" ∷ "memory.candidate" ∷ "snapshot.imported"
    ∷ "bundle.imported" ∷ "bundle.discovered" ∷ "hygiene.checked" ∷ "hygiene.warning"
    ∷ "index.rebuilt" ∷ "sync.applied" ∷ "handoff.applied" ∷ []

-- `ReplayExecutionError`, without the texts for people.
pub record ReplayError : Type 0 where
  pub reason : String
  pub event_seq : Value
  pub event_id : String
  pub memory_id : String

-- The source's mount identity; the texts are empty where there is none.
pub record Source : Type 0 where
  pub mount_id : String
  pub replica_id : String
  pub history_id : String
  pub legacy_history : Bool

-- `FileRef`
pub record FileRef : Type 0 where
  pub source_uri : String
  pub byte_offset : Value
  pub byte_length : Value
  pub source_format : String
  pub source_checksum : Option String

-- What the replay uses of record.py, fingerprint.py, canonical.py and memory.py.
pub record Rules : Type 0 where
  pub normalize : Fields → Option Fields  -- `normalize_record`; `none` is one of the caught errors
  pub validate : Fields → List String  -- `validate_record`
  pub fingerprint : Fields → String  -- `record_fingerprint` of a normalized record
  pub content_hash : String → String → String  -- `compute_content_hash`
  pub normalize_source_uri : String → String
  pub file_content_hash : String → FileRef → String  -- `compute_file_content_hash`
  pub legacy_file_content_hashes : String → FileRef → List String
  pub to_int : Value → Option Value  -- `int(v)`; `none` is a `TypeError` or a `ValueError`

-- `a and b and a != b`
abbrev pub conflicting : String → String → Bool
conflicting a b = if is_blank a then false else if is_blank b then false else not (a =ₛ b)

-- `not a or not b or a == b`
abbrev pub compatible : String → String → Bool
compatible a b = not (conflicting a b)

-- A text that is not empty.
abbrev pub is_text : Value → Bool
is_text (str s) = not (is_blank s)
is_text _ = false
