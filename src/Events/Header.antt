-- ===== src/Events/Header.antt =====
-- The first half of `_validate_and_plan_event_step` of src/hotmem/events.py: what every event must
-- satisfy, before its record and the target are looked at.
pub mod Checked
pub mod Origin
use hot_mem.Prelude.{
  ℕ, String, Bool, true, false, ◌&&◌, ◌||◌, not, Option, none, some, List, [], ◌∷◌, if◌then◌else◌,
  contains, ◌=ₛ◌, ◌==◌, ltb, Result, ok, err, ◌>>=◌, ◌>>◌, raise_if,
}
use hot_mem.Prelude.Strings.{strip, is_blank}
use hot_mem.Json.{Value, null, str, obj, arr, num, bool, Fields, get, has}
use hot_mem.Policy.Platform.{Platform, to_str, str_or_empty}
use hot_mem.Events.Types.{
  Event, Kind, created, updated, deleted, kind_of, observational_event_types, ReplayError, Source,
  conflicting, is_text,
}

-- What the checks have established of a reconstructing event.
pub record Envelope : Type 0 where
  pub seq : ℕ
  pub event_id : String
  pub kind : Kind
  pub id : String
  pub namespace : String
  pub is_v1 : Bool
  pub payload : Fields

pub data Header : Type 0 where
  observational : ℕ → Header
  reconstructing : Envelope → Header

-- `raw if type(raw) is int else None`
abbrev pub int_or_null : Value → Value
int_or_null (num negative digits scale) = if scale == 0 then num negative digits scale else null
int_or_null v = null

-- A positive integer.
abbrev pub positive_int : Value → Option ℕ
positive_int (num false digits scale) = if scale == 0 && ltb 0 digits then some digits else none
positive_int v = none

-- `v in (None, name)`
abbrev pub none_or : String → Value → Bool
none_or name null = true
none_or name (str s) = s =ₛ name
none_or name v = false

abbrev pub replay_error : String → ℕ → String → String → ReplayError
replay_error reason seq event_id memory_id = record {
  reason = reason;
  event_seq = num false seq 0;
  event_id = event_id;
  memory_id = memory_id;
}

unfoldable pub check_seq : ℕ → String → Value → Result ReplayError ℕ
check_seq prev event_id raw =
    let out_of_order : ReplayError = record {
      reason = "invalid_event_order";
      event_seq = int_or_null raw;
      event_id = event_id;
      memory_id = "";
    } in
    elim (positive_int raw) [
      | none ↦ err out_of_order
      | some seq ↦ if ltb prev seq then ok seq else err out_of_order
    ]

abbrev pub is_version_one : Value → Bool
is_version_one (num false digits scale) = digits == 1 && scale == 0
is_version_one v = false

unfoldable pub check_version : Kind → Fields → ℕ → String → Result ReplayError Bool
check_version kind payload seq event_id =
    if has "payload_schema_version" payload
    then if is_version_one (get "payload_schema_version" payload)
      then ok true
      else err (replay_error "unsupported_payload_version" seq event_id "")
    else elim kind [
      | created ↦ ok false
      | _ ↦ err (replay_error "missing_payload_version" seq event_id "")
    ]

unfoldable pub check_id : Fields → ℕ → String → Result ReplayError String
check_id payload seq event_id = elim (get "id" payload) [
  | str s ↦
      if is_blank (strip s)
      then err (replay_error "malformed_event_payload" seq event_id "")
      else ok s
  | _ ↦ err (replay_error "malformed_event_payload" seq event_id "")
]

-- The origin that a payload of version 1 must have.
abbrev pub is_full_origin : Value → Bool
is_full_origin (obj o) =
    is_text (get "mount_id" o) && is_text (get "replica_id" o) && is_text (get "history_id" o)
is_full_origin v = false

unfoldable pub check_namespace : Value → ReplayError → Result ReplayError String
check_namespace null malformed = ok ""
check_namespace (str s) malformed = ok s
check_namespace v malformed = err malformed

module _ (p : Platform) where
  -- `v is None or str(v) == ""`
  abbrev pub is_absent : Value → Bool
  is_absent null = true
  is_absent v = is_blank (to_str p v)

  unfoldable pub check_origin :
      Source → Value → (String → ReplayError) → Result ReplayError (Unit {0})
  check_origin src null fail = ok tt
  check_origin src (obj o) fail = do
    raise_if
        (conflicting (str_or_empty p (get "mount_id" o)) src.mount_id && not src.legacy_history)
        (fail "origin_identity_mismatch")
    raise_if
        (conflicting (str_or_empty p (get "history_id" o)) src.history_id && not src.legacy_history)
        (fail "origin_identity_mismatch")
  check_origin src v fail = err (fail "malformed_event_payload")

  -- `v is not None and str(v) != s`
  abbrev pub names_other : Value → String → Bool
  names_other null s = false
  names_other v s = not (to_str p v =ₛ s)

  -- The event's own id, and what a payload of version 1 must state.
  unfoldable pub check_identity :
      Event → Bool → String → Fields → (String → ReplayError) → Result ReplayError (Unit {0})
  check_identity e is_v1 id payload fail = do
    raise_if (is_v1 && is_absent e.memory_id) (fail "identity_mismatch")
    raise_if (not (is_absent e.memory_id) && names_other e.memory_id id) (fail "identity_mismatch")
    raise_if (is_v1 && not (is_text (get "record_fingerprint" payload)))
        (fail "malformed_event_payload")
    raise_if (is_v1 && not (is_full_origin (get "origin" payload))) (fail "malformed_event_payload")

  unfoldable pub check_identified :
      Source → Event → ℕ → Kind → Fields → Bool → String → Result ReplayError Envelope
  check_identified src e seq kind payload is_v1 id = do
    let event_id = str_or_empty p e.event_id
    let fail = λ (reason : String). replay_error reason seq event_id id
    check_identity e is_v1 id payload fail
    namespace ← check_namespace (get "namespace" payload) (fail "malformed_event_payload")
    raise_if (is_v1 && names_other e.namespace namespace) (fail "identity_mismatch")
    check_origin src (get "origin" payload) fail
    ok (record {
      seq = seq;
      event_id = event_id;
      kind = kind;
      id = id;
      namespace = namespace;
      is_v1 = is_v1;
      payload = payload;
    })

  unfoldable pub check_reconstructing :
      List String → Source → Event → ℕ → String → Kind → Fields → Result ReplayError Envelope
  check_reconstructing types src e seq etype kind payload = do
    let event_id = str_or_empty p e.event_id
    raise_if (not (none_or "reconstructing" (get "event_category" payload)))
        (replay_error "malformed_event_payload" seq event_id "")
    raise_if (not (contains types etype))
        (replay_error "incomplete_reconstructing_scope" seq event_id "")
    is_v1 ← check_version kind payload seq event_id
    id ← check_id payload seq event_id
    check_identified src e seq kind payload is_v1 id

  unfoldable pub check_observational : String → String → Fields → ℕ → Result ReplayError ℕ
  check_observational event_id etype payload seq = do
    raise_if (not (contains observational_event_types etype))
        (replay_error "unsupported_event_type" seq event_id "")
    raise_if (not (none_or "observational" (get "event_category" payload)))
        (replay_error "malformed_event_payload" seq event_id "")
    ok seq

  abbrev pub payload_of : Value → ReplayError → Result ReplayError Fields
  payload_of (obj d) malformed = ok d
  payload_of v malformed = err malformed

  -- The checks that the event's type asks for.
  unfoldable pub check_typed :
      List String → Source → Event → ℕ → Fields → Option Kind → Result ReplayError Header
  check_typed types src e seq payload none =
      check_observational (str_or_empty p e.event_id) (str_or_empty p e.event_type) payload seq
      >>= λ n. ok (observational n)
  check_typed types src e seq payload (some kind) =
      check_reconstructing types src e seq (str_or_empty p e.event_type) kind payload >>= λ env.
      ok (reconstructing env)

  unfoldable pub check_event : List String → Source → ℕ → Event → Result ReplayError Header
  check_event types src prev e = do
    let event_id = str_or_empty p e.event_id
    seq ← check_seq prev event_id e.seq
    payload ← payload_of e.payload (replay_error "malformed_event_payload" seq event_id "")
    check_typed types src e seq payload (kind_of (str_or_empty p e.event_type))
