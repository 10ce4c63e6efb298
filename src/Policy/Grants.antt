-- ===== src/Policy/Grants.antt =====
-- `ShareApproval` and `CallerCredential` of src/hotmem/policy.py: what a credential grants.
use hot_mem.Prelude.{
  ℕ, String, Bool, false, ◌&&◌, ◌||◌, not, Option, List, if◌then◌else◌, contains, is_empty, ◌=ₛ◌,
  Result, ok, err,
}
use hot_mem.Json.{Fields, get}
use hot_mem.Policy.Platform.{Platform, str_or_empty}

-- `VALID_SECRET_ACTIONS`; `__post_init__` lets no other text into the fields.
pub data SecretAction : Type 0 where
  allow redact omit fail_closed : SecretAction

-- `VALID_CLASSIFICATION_ACTIONS`
pub data ClassificationAction : Type 0 where
  allow omit fail_closed : ClassificationAction

-- The `ValueError` of the two validators.
pub data InvalidAction : Type 0 where
  invalid_action : String → InvalidAction

unfoldable pub validate_secret_action : String → Result InvalidAction SecretAction
validate_secret_action action =
    if action =ₛ "allow"
    then ok SecretAction.allow
    else if action =ₛ "redact"
    then ok SecretAction.redact
    else if action =ₛ "omit"
    then ok SecretAction.omit
    else if action =ₛ "fail_closed"
    then ok SecretAction.fail_closed
    else err (invalid_action action)

unfoldable pub validate_classification_action : String → Result InvalidAction ClassificationAction
validate_classification_action action =
    if action =ₛ "allow"
    then ok ClassificationAction.allow
    else if action =ₛ "omit"
    then ok ClassificationAction.omit
    else if action =ₛ "fail_closed"
    then ok ClassificationAction.fail_closed
    else err (invalid_action action)

pub record ShareApproval : Type 0 where
  pub approval_id : String
  pub namespace : String
  pub identifiers : List String
  pub memory_ids : List String
  pub audience : List String
  pub operations : List String
  pub version : ℕ
  pub revoked : Bool
  pub secret_action : Option SecretAction
  pub private_classification_action : Option ClassificationAction

pub record CallerCredential : Type 0 where
  pub token_hash : String
  pub caller_id : String
  pub store_id : String
  pub namespaces : List String
  pub operations : List String
  pub allowed_sessions : List String
  pub allowed_sources : List String
  pub allowed_harnesses : List String
  pub share_approvals : List ShareApproval
  pub is_management : Bool
  pub revoked : Bool
  pub secret_action : Option SecretAction
  pub private_classification_action : Option ClassificationAction
  pub allow_attachments : Bool
  pub redact_host_paths : Bool

-- `xs and x not in xs`
abbrev pub excludes : List String → String → Bool
excludes xs x = not (is_empty xs) && not (contains xs x)

unfoldable pub allows_namespace : ShareApproval → String → String → String → Bool
allows_namespace s target caller operation =
    if s.revoked
    then false
    else if excludes s.audience caller
    then false
    else if not (contains s.operations operation)
    then false
    else s.namespace =ₛ target

module _ (p : Platform) where
  unfoldable pub allows_row : ShareApproval → Fields → String → String → Bool
  allows_row s row caller operation =
      if s.revoked
      then false
      else if excludes s.audience caller
      then false
      else if not (contains s.operations operation)
      then false
      else if not (str_or_empty p (get "namespace" row) =ₛ s.namespace)
      then false
      else if excludes s.memory_ids (str_or_empty p (get "id" row))
      then false
      else not (excludes s.identifiers (str_or_empty p (get "identifier" row)))

  unfoldable pub matches_token : CallerCredential → String → Bool
  matches_token c token = c.token_hash =ₛ p.sha256 token

-- The credential's own grant, with `"*"` for every namespace.
unfoldable pub grants : CallerCredential → String → String → Bool
grants c operation target =
    contains c.operations operation && (contains c.namespaces "*" || contains c.namespaces target)
