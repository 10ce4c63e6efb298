-- ===== src/Policy/Context.antt =====
-- `CallerContext` of src/hotmem/policy.py: the scope of one request.
pub mod Access
pub mod Rows
pub mod Writes
pub mod Operations
use hot_mem.Prelude.{
  ℕ, String, Bool, true, false, ◌&&◌, ◌||◌, not, Option, none, some, List, [], ◌∷◌, if◌then◌else◌,
  contains, is_empty, any, keep, head?, or_else, get_or, ◌=ₛ◌, Result, ok, err, ◌>>=◌, ◌>>◌,
  raise_if,
}
use hot_mem.Prelude.Strings.{is_blank}
use hot_mem.Json.{Fields, get}
use hot_mem.Policy.Errors.{PolicyError, policy_error}
use hot_mem.Policy.Platform.{Platform, str_or_empty}
use hot_mem.Policy.Grants.{
  SecretAction, ClassificationAction, ShareApproval, CallerCredential, allows_namespace, allows_row,
  grants,
}

pub record CallerContext : Type 0 where
  pub authenticated : Bool
  pub policy_enforced : Bool
  pub caller_id : String
  pub store_id : String
  pub session_id : String
  pub harness_id : String
  pub source : String
  pub namespace : Option String
  pub credential : Option CallerCredential
  pub idempotency_key : Option String
  pub envelope_version : String
  pub policy_default_secret_action : SecretAction
  pub policy_default_private_classification_action : ClassificationAction

-- The credential that binds the request: `none` where the code's first test is
-- `not self.policy_enforced or self.credential is None`.
abbrev pub binding : CallerContext → Option CallerCredential
binding c = if c.policy_enforced then c.credential else none

-- `scope is not None and target != scope`
abbrev pub outside : Option String → String → Bool
outside none target = false
outside (some scope) target = not (target =ₛ scope)

unfoldable pub can_access_namespace : CallerContext → String → String → Bool
can_access_namespace c target operation = elim (binding c) [
  | none ↦ true
  | some cred ↦
      if outside c.namespace target
      then false
      else if grants cred operation target
      then true
      else any (λ s. allows_namespace s target c.caller_id operation) cred.share_approvals
]

module _ (p : Platform) where
  unfoldable pub can_access_row : CallerContext → Fields → String → Bool
  can_access_row c row operation = elim (binding c) [
    | none ↦ true
    | some cred ↦
        if outside c.namespace (str_or_empty p (get "namespace" row))
        then false
        else if grants cred operation (str_or_empty p (get "namespace" row))
        then true
        else any (λ s. allows_row p s row c.caller_id operation) cred.share_approvals
  ]

  abbrev pub in_namespace : Option String → List Fields → List Fields
  in_namespace none rows = rows
  in_namespace (some scope) rows = keep (λ r. str_or_empty p (get "namespace" r) =ₛ scope) rows

  unfoldable pub filter_rows : CallerContext → List Fields → String → List Fields
  filter_rows c rows operation = elim (binding c) [
    | none ↦ in_namespace c.namespace rows
    | some cred ↦ keep (λ r. can_access_row c r operation) rows
  ]

abbrev pub scope_denied : PolicyError
scope_denied = policy_error 403 "scope_denied"

-- `namespaces[0] if namespaces else ""`, unless the request names a namespace.
abbrev pub write_target : CallerContext → CallerCredential → String
write_target c cred = get_or (or_else c.namespace (head? cred.namespaces)) ""

unfoldable pub effective_write_namespace : CallerContext → Result PolicyError String
effective_write_namespace c = elim (binding c) [
  | none ↦ ok (get_or c.namespace "")
  | some cred ↦ do
    let target = write_target c cred
    raise_if (target =ₛ "*") (policy_error 400 "namespace_required")
    raise_if (not (can_access_namespace c target "write")) scope_denied
    ok target
]

abbrev pub is_some : Option String → Bool
is_some none = false
is_some (some s) = true

unfoldable pub hydrate_target_namespace : CallerContext → Result PolicyError String
hydrate_target_namespace c = elim (binding c) [
  | none ↦ ok (get_or c.namespace "")
  | some cred ↦
      if is_some c.namespace
      then effective_write_namespace c
      else if not (is_empty cred.namespaces) && not (contains cred.namespaces "*")
      then effective_write_namespace c
      else ok ""
]

-- Some share approval that is not revoked names the operation.
abbrev pub shared_operation : CallerCredential → String → Bool
shared_operation cred operation =
    any (λ s. not s.revoked && contains s.operations operation) cred.share_approvals

abbrev pub scope_blocks : CallerContext → String → Bool
scope_blocks c operation = elim c.namespace [
  | none ↦ false
  | some scope ↦ not (can_access_namespace c scope operation)
]

unfoldable pub require_operation : CallerContext → String → Result PolicyError (Unit {0})
require_operation c operation = elim (binding c) [
  | none ↦ ok tt
  | some cred ↦
      if operation =ₛ "manage"
      then raise_if (not cred.is_management) (policy_error 403 "management_authority_required")
      else do
        raise_if (not (contains cred.operations operation) && not (shared_operation cred operation))
            scope_denied
        raise_if (scope_blocks c operation) scope_denied
]

unfoldable pub redact_host_paths_enabled : CallerContext → Bool
redact_host_paths_enabled c =
    if not c.policy_enforced
    then false
    else elim c.credential [ none ↦ true | some cred ↦ cred.redact_host_paths ]

unfoldable pub allow_attachments_enabled : CallerContext → Bool
allow_attachments_enabled c = if not c.policy_enforced then true else elim c.credential [
  | none ↦ false
  | some cred ↦ cred.allow_attachments || cred.is_management
]

pub record SessionEnvelope : Type 0 where
  pub caller_id : String
  pub session_id : String
  pub source : String
  pub namespace : String
  pub store_id : String
  pub harness_id : String
  pub envelope_version : String

-- `a or b` on texts
abbrev pub or_text : String → String → String
or_text a b = if is_blank a then b else a

unfoldable pub build_session_envelope :
    CallerContext
    → String
    → String
    → Option String
    → Option String
    → Option String
    → Option SessionEnvelope
build_session_envelope c target request_source request_harness request_session request_version =
    let harness = get_or request_harness c.harness_id in
    let session = get_or request_session c.session_id in
    if c.policy_enforced
      || c.authenticated
      || not (is_blank session)
      || not (is_blank harness)
      || not (is_blank target)
    then some (record {
      caller_id = or_text c.caller_id "anonymous";
      session_id = session;
      source = or_text c.source request_source;
      namespace = target;
      store_id = c.store_id;
      harness_id = harness;
      envelope_version = or_text (get_or request_version "") c.envelope_version;
    })
    else none
