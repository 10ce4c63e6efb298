-- ===== src/Policy/Tests.antt =====
-- Runs of the policy model, and its theorems at concrete inputs.
use mathlib.Core.List.{Memᴰ}
use hot_mem.Prelude.{String, ◌≡◌, ◌≢◌, refl, ◌↔◌, true, false, none, some, [], ◌∷◌, ok, err}
use hot_mem.Prelude.Strings.{strip, str_len, has_control, is_space}
use hot_mem.Json.{null, str, Fields, end, field, get, truthy}
use hot_mem.Policy.Errors.{policy_error}
use hot_mem.Policy.Platform.{Platform, str_or_empty}
use hot_mem.Policy.Validation.{
  validate_context_field, validate_envelope_version, validate_request_tags,
}
use hot_mem.Policy.Grants.{
  ShareApproval, CallerCredential, SecretAction, ClassificationAction, allows_row, allows_namespace,
  matches_token, grants,
}
use hot_mem.Policy.Context.{
  CallerContext, can_access_row, can_access_namespace, filter_rows, write_target,
  effective_write_namespace, hydrate_target_namespace, require_operation,
}
use hot_mem.Policy.Context.Access.{MayAccess}
use hot_mem.Policy.Context.Rows.{InScope, Sees, can_access_row_iff, filter_rows_iff}
use hot_mem.Policy.Context.Writes.{MayEnter, effective_write_namespace_iff}
use hot_mem.Policy.Context.Operations.{Permitted, require_operation_iff}
use hot_mem.Policy.Config.{
  PolicyConfig, Request, clean_request, check_claim, claimed_of_others, find_credential, authorize,
  authenticate, resolve_request, resolve_embedded, revoke_caller, revoke_credentials,
  revoke_credential, revoke_shares, revoke_share_approval, revoke_approval_in,
}
use hot_mem.Policy.Config.Resolve.{IsAuthorized, resolve_request-IsAuthorized}
use hot_mem.Policy.Config.Revoked.{MayStill, revoked_caller_locked_out, revoke_credential_iff}

abbrev pub toy : Platform
toy = record {
  show = λ v. "?";
  lower = λ s. s;
  sha256 = λ s. s;
  loads = λ s. none;
  dumps = λ v. "";
}

abbrev team_share : ShareApproval
team_share = record {
  approval_id = "share-1";
  namespace = "team";
  identifiers = [];
  memory_ids = "m2" ∷ [];
  audience = "alice" ∷ [];
  operations = "read" ∷ [];
  version = 1;
  revoked = false;
  secret_action = none;
  private_classification_action = none;
}

abbrev pub alice : CallerCredential
alice = record {
  token_hash = "token-a";
  caller_id = "alice";
  store_id = "";
  namespaces = "home" ∷ [];
  operations = "read" ∷ "write" ∷ [];
  allowed_sessions = "s1" ∷ [];
  allowed_sources = [];
  allowed_harnesses = [];
  share_approvals = team_share ∷ [];
  is_management = false;
  revoked = false;
  secret_action = none;
  private_classification_action = none;
  allow_attachments = false;
  redact_host_paths = true;
}

abbrev bob : CallerCredential
bob = record alice {
  token_hash = "token-b";
  caller_id = "bob";
  namespaces = "team" ∷ [];
  allowed_sessions = "s2" ∷ [];
  share_approvals = [];
}

abbrev pub config : PolicyConfig
config = record {
  store_id = "store-1";
  require_auth = true;
  credentials = alice ∷ bob ∷ [];
  revision = 1;
  default_secret_action = SecretAction.redact;
  default_private_classification_action = ClassificationAction.omit;
}

abbrev by_alice : Request
by_alice = record {
  token = some "token-a";
  requested_store_id = none;
  session_id = str " s1 ";
  harness_id = null;
  source = null;
  namespace = null;
  actor = null;
  idempotency_key = none;
  envelope_version = null;
  caller_id_claim = null;
}

abbrev pub alice_context : CallerContext
alice_context = record {
  authenticated = true;
  policy_enforced = true;
  caller_id = "alice";
  store_id = "store-1";
  session_id = "s1";
  harness_id = "";
  source = "";
  namespace = none;
  credential = some alice;
  idempotency_key = none;
  envelope_version = "hotmem-session-v1";
  policy_default_secret_action = SecretAction.redact;
  policy_default_private_classification_action = ClassificationAction.omit;
}

program : Unit {0}
unfolding truthy strip str_len has_control is_space validate_context_field validate_envelope_version
    validate_request_tags get allows_row allows_namespace matches_token grants can_access_row
    can_access_namespace filter_rows effective_write_namespace hydrate_target_namespace
    require_operation clean_request check_claim claimed_of_others find_credential authorize
    authenticate resolve_request resolve_embedded revoke_caller revoke_credentials revoke_credential
    revoke_shares revoke_share_approval revoke_approval_in
program = tt

alice_resolves : resolve_request toy config "store-1" by_alice ≡ ok alice_context
unfolding program
alice_resolves = refl

alice_cannot_be_bob :
    resolve_request toy config "store-1" (record by_alice { session_id = str "s2" })
    ≡ err (policy_error 403 "session_impersonation_denied")
unfolding program
alice_cannot_be_bob = refl

abbrev home_row : Fields
home_row = field "id" (str "m1") (field "namespace" (str "home") end)

abbrev shared_row : Fields
shared_row = field "id" (str "m2") (field "namespace" (str "team") end)

abbrev hidden_row : Fields
hidden_row = field "id" (str "m3") (field "namespace" (str "team") end)

alice_reads :
    filter_rows toy alice_context (home_row ∷ shared_row ∷ hidden_row ∷ []) "read"
    ≡ home_row ∷ shared_row ∷ []
unfolding program
alice_reads = refl

can_access_row_iff_example : (can_access_row toy alice_context shared_row "read" ≡ true) ↔ (
    InScope none (str_or_empty toy (get "namespace" shared_row))
    × MayAccess toy "alice" "read" shared_row alice)
can_access_row_iff_example = can_access_row_iff toy alice_context alice "read" shared_row refl

filter_rows_iff_example :
    Memᴰ hidden_row (filter_rows toy alice_context (shared_row ∷ hidden_row ∷ []) "read") ↔ (
      Memᴰ hidden_row (shared_row ∷ hidden_row ∷ [])
      × InScope none (str_or_empty toy (get "namespace" hidden_row))
      × Sees toy alice_context "read" hidden_row)
filter_rows_iff_example =
    filter_rows_iff toy alice_context "read" (shared_row ∷ hidden_row ∷ []) hidden_row

effective_write_namespace_iff_example : (effective_write_namespace alice_context ≡ ok "home") ↔ (
    ("home" ≡ write_target alice_context alice)
    × (◌≢◌ {A = String} "home" "*")
    × InScope none "home"
    × MayEnter "alice" "write" "home" alice)
effective_write_namespace_iff_example =
    effective_write_namespace_iff alice_context alice refl "home"

require_operation_iff_example :
    (require_operation alice_context "export" ≡ ok tt) ↔ Permitted alice_context alice "export"
require_operation_iff_example = require_operation_iff alice_context alice "export" refl

resolve_request-IsAuthorized_example :
    (cred : CallerCredential) × IsAuthorized toy config by_alice alice_context cred
resolve_request-IsAuthorized_example =
    resolve_request-IsAuthorized toy config "store-1" by_alice refl alice_resolves

abbrev by_bob : Request
by_bob = record by_alice { token = some "token-b"; session_id = null }

abbrev bob_context : CallerContext
bob_context = record alice_context { caller_id = "bob"; session_id = ""; credential = some bob }

bob_after_alice :
    resolve_request toy (revoke_caller config "alice").0 "store-1" by_bob ≡ ok bob_context
unfolding program
bob_after_alice = refl

revoked_caller_locked_out_example : ◌≢◌ {A = String} "bob" "alice"
unfolding program
revoked_caller_locked_out_example =
    revoked_caller_locked_out toy config "alice" "store-1" by_bob {c = bob_context} refl
      bob_after_alice

-- The approval for alice is revoked in her own credential, which grants only `home`.
revoke_credential_iff_example :
    (can_access_row toy
        (record alice_context { credential = some (revoke_credential "alice" alice).0 })
        shared_row
        "read"
      ≡ true)
    ↔ (InScope none (str_or_empty toy (get "namespace" shared_row))
        × MayStill toy "alice" "read" shared_row "alice" alice)
revoke_credential_iff_example =
    revoke_credential_iff toy "alice" "read" shared_row alice_context alice refl

revoked_shared_row :
    can_access_row toy
      (record alice_context { credential = some (revoke_credential "alice" alice).0 })
      shared_row
      "read"
    ≡ false
unfolding program
revoked_shared_row = refl
