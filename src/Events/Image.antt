-- ===== src/Events/Image.antt =====
-- The record that a `memory.created` or `memory.updated` event carries, in
-- `_validate_and_plan_event_step` of src/hotmem/events.py.
use Prim.Native.Char.{code}
use hot_mem.Prelude.{
  String, Bool, true, false, ◌||◌, not, Option, none, some, List, [], ◌∷◌, if◌then◌else◌, contains,
  is_empty, ◌=ₛ◌, ◌==◌, Result, ok, err, ◌>>=◌, ◌>>◌, raise_if,
}
use hot_mem.Prelude.Strings.{is_blank}
use hot_mem.Json.{Value, num, Fields, end, field, get, truthy}
use hot_mem.Policy.Platform.{Platform, to_str, str_or_empty}
use hot_mem.Events.Types.{Kind, created, updated, deleted, ReplayError, FileRef, Rules}
use hot_mem.Events.Header.{Envelope, none_or, replay_error}

abbrev pub envelope_only_keys : List String
envelope_only_keys =
    "payload_schema_version" ∷ "event_category" ∷ "transition" ∷ "record_fingerprint"
    ∷ "previous_content_hash" ∷ "previous_record_fingerprint" ∷ "origin" ∷ "occurred_at"
    ∷ "deleted_at" ∷ "reason" ∷ []

unfoldable pub strip_envelope_keys : Fields → Fields
strip_envelope_keys end = end
strip_envelope_keys (field k v d) =
    let rest = strip_envelope_keys d in
    if contains envelope_only_keys k then rest else field k v rest

-- The identity and the state that the event leads to.
pub record Image : Type 0 where
  pub content_hash : String
  pub fingerprint : String

abbrev pub starts_with_slash : String → Bool
starts_with_slash (String.◌∷◌ c s) = code c == 47
starts_with_slash s = false

-- `len(s) >= 2 and s[1] == ":"`
abbrev pub has_drive : String → Bool
has_drive (String.◌∷◌ c (String.◌∷◌ d s)) = code d == 58
has_drive s = false

-- `v or 0`
abbrev pub or_zero : Value → Value
or_zero v = if truthy v then v else num false 0 0

-- `s or None`
abbrev pub none_if_blank : String → Option String
none_if_blank s = if is_blank s then none else some s

abbrev pub transition_name : Kind → String
transition_name created = "create"
transition_name updated = "update"
transition_name deleted = "delete"

module _ (p : Platform) (rules : Rules) where
  abbrev pub text_of : String → Fields → String
  text_of key payload = str_or_empty p (get key payload)

  -- The hashes that the payload's identity fields admit; `none` for an absolute path, whose hash
  -- cannot be computed here.
  unfoldable pub accepted_hashes : Fields → ReplayError → Result ReplayError (Option (List String))
  accepted_hashes payload malformed =
      let identifier = text_of "identifier" payload in
      let source_uri = text_of "source_uri" payload in
      let normal = rules.normalize_source_uri source_uri in
      if is_blank source_uri
      then ok (some (rules.content_hash identifier (text_of "fact_text" payload) ∷ []))
      else if starts_with_slash normal || has_drive normal
      then ok none
      else elim (rules.to_int (or_zero (get "byte_offset" payload))) [
        | none ↦ err malformed
        | some offset ↦ elim (rules.to_int (or_zero (get "byte_length" payload))) [
          | none ↦ err malformed
          | some length ↦
              let ref : FileRef = record {
                source_uri = source_uri;
                byte_offset = offset;
                byte_length = length;
                source_format = text_of "source_format" payload;
                source_checksum = none_if_blank (text_of "source_checksum" payload);
              } in
              ok (
                some (
                  rules.file_content_hash identifier ref
                  ∷ rules.legacy_file_content_hashes identifier ref))
        ]
      ]

  abbrev pub admits : Option (List String) → String → Bool
  admits none hash = true
  admits (some hashes) hash = contains hashes hash

  -- The checks of a payload of version 1.
  unfoldable pub check_record :
      Fields → Fields → String → (String → ReplayError) → Result ReplayError (Unit {0})
  check_record payload normalized hash fail = do
    raise_if (not (is_empty (rules.validate normalized))) (fail "malformed_event_payload")
    accepted ← accepted_hashes payload (fail "malformed_event_payload")
    raise_if (not (admits accepted hash)) (fail "identity_mismatch")
    raise_if (not (to_str p (get "record_fingerprint" payload) =ₛ rules.fingerprint normalized))
        (fail "identity_mismatch")

  abbrev pub normalized_or : Option Fields → ReplayError → Result ReplayError Fields
  normalized_or none malformed = err malformed
  normalized_or (some n) malformed = ok n

  unfoldable pub check_image : Envelope → Result ReplayError Image
  check_image env = do
    let fail = λ (reason : String). replay_error reason env.seq env.event_id env.id
    raise_if (not (none_or (transition_name env.kind) (get "transition" env.payload)))
        (fail "malformed_event_payload")
    normalized ←
        normalized_or (rules.normalize (strip_envelope_keys env.payload))
          (fail "malformed_event_payload")
    let hash = text_of "content_hash" env.payload
    raise_if (is_blank hash) (fail "malformed_event_payload")
    if env.is_v1 then check_record env.payload normalized hash fail else ok tt
    ok (record { content_hash = hash; fingerprint = rules.fingerprint normalized })
