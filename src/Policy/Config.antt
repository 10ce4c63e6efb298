-- ===== src/Policy/Config.antt =====
-- `PolicyConfig` of src/hotmem/policy.py: revocation, attribution and the resolution of a request.
pub mod Revoked
pub mod Revocation
pub mod Resolve
use hot_mem.Prelude.{
  ℕ, ◌+◌, String, Bool, true, false, ◌&&◌, ◌||◌, not, Option, none, some, List, [], ◌∷◌, ◌++◌,
  if◌then◌else◌, contains, is_empty, any, get_or, ◌=ₛ◌, Result, ok, err, ◌>>=◌, ◌>>◌, raise_if,
}
use hot_mem.Prelude.Strings.{is_blank}
use hot_mem.Json.{Value, null, str, Fields, end, field}
use hot_mem.Policy.Errors.{PolicyError, policy_error}
use hot_mem.Policy.Platform.{Platform}
use hot_mem.Policy.Validation.{validate_context_field, validate_envelope_version}
use hot_mem.Policy.Grants.{
  SecretAction, ClassificationAction, ShareApproval, CallerCredential, matches_token, excludes,
}
use hot_mem.Policy.Context.{CallerContext, or_text}

pub record PolicyConfig : Type 0 where
  pub store_id : String
  pub require_auth : Bool
  pub credentials : List CallerCredential
  pub revision : ℕ
  pub default_secret_action : SecretAction
  pub default_private_classification_action : ClassificationAction

-- The loop over one credential's approvals: those that `hit` selects and that are not revoked
-- yet are revoked and counted.
unfoldable pub revoke_shares : (ShareApproval → Bool) → List ShareApproval → List ShareApproval × ℕ
revoke_shares hit [] = ([], 0)
revoke_shares hit (s ∷ rest) =
    let (updated, count) = revoke_shares hit rest in
    if hit s && not s.revoked
    then (record s { revoked = true } ∷ updated, count + 1)
    else (s ∷ updated, count)

-- One round of the loop of `revoke_caller`.
unfoldable pub revoke_credential : String → CallerCredential → CallerCredential × ℕ
revoke_credential caller cred =
    let own = cred.caller_id =ₛ caller && not cred.revoked in
    let (updated, count) = revoke_shares (λ s. contains s.audience caller) cred.share_approvals in
    if own
    then (record cred { revoked = true; share_approvals = updated }, count + 1)
    else (record cred { share_approvals = updated }, count)

unfoldable pub revoke_credentials : String → List CallerCredential → List CallerCredential × ℕ
revoke_credentials caller [] = ([], 0)
revoke_credentials caller (cred ∷ rest) =
    let (cred', n) = revoke_credential caller cred in
    let (rest', m) = revoke_credentials caller rest in (cred' ∷ rest', n + m)

unfoldable pub revoke_caller : PolicyConfig → String → PolicyConfig × ℕ
revoke_caller cfg caller =
    let (updated, count) = revoke_credentials caller cfg.credentials in
    (record cfg { credentials = updated; revision = cfg.revision + 1 }, count)

unfoldable pub revoke_approval_in : String → List CallerCredential → List CallerCredential × ℕ
revoke_approval_in approval [] = ([], 0)
revoke_approval_in approval (cred ∷ rest) =
    let (updated, n) = revoke_shares (λ s. s.approval_id =ₛ approval) cred.share_approvals in
    let (rest', m) = revoke_approval_in approval rest in
    (record cred { share_approvals = updated } ∷ rest', n + m)

unfoldable pub revoke_share_approval : PolicyConfig → String → PolicyConfig × ℕ
revoke_share_approval cfg approval =
    let (updated, count) = revoke_approval_in approval cfg.credentials in
    (record cfg { credentials = updated; revision = cfg.revision + 1 }, count)

-- `_claimed_sessions_of_others`, `_claimed_sources_of_others`, `_claimed_harnesses_of_others`
unfoldable pub claimed_of_others :
    (CallerCredential → List String) → String → List CallerCredential → List String
claimed_of_others claims caller [] = []
claimed_of_others claims caller (c ∷ rest) =
    let others = claimed_of_others claims caller rest in
    if not (c.caller_id =ₛ caller) then claims c ++ others else others

abbrev pub impersonation : PolicyError
impersonation = policy_error 403 "session_impersonation_denied"

-- The two tests of one claimed session, source or harness.
unfoldable pub check_claim : List String → List String → String → Result PolicyError (Unit {0})
check_claim allowed others claim = if is_blank claim then ok tt else do
  raise_if (excludes allowed claim) impersonation
  raise_if (contains others claim) impersonation

-- `value is not None and value != ""`
abbrev pub is_given : Value → Bool
is_given null = false
is_given (str s) = not (is_blank s)
is_given v = true

pub record Request : Type 0 where
  pub token : Option String
  pub requested_store_id : Option String
  pub session_id : Value
  pub harness_id : Value
  pub source : Value
  pub namespace : Value
  pub actor : Value
  pub idempotency_key : Option String
  pub envelope_version : Value
  pub caller_id_claim : Value

-- The request's fields after validation; an absent actor or claim is the empty text.
pub record CleanRequest : Type 0 where
  pub version : String
  pub harness : String
  pub source : String
  pub session : String
  pub namespace : Option String
  pub actor : String
  pub caller_claim : String

abbrev pub validate_given : Value → Result PolicyError String
validate_given v = if is_given v then validate_context_field v false else ok ""

abbrev validate_present : Value → Result PolicyError String
validate_present null = ok ""
validate_present v = validate_context_field v false

abbrev none_if_blank : String → Option String
none_if_blank s = if is_blank s then none else some s

unfoldable pub clean_request : Request → Result PolicyError CleanRequest
clean_request r = do
  version ← validate_envelope_version r.envelope_version
  harness ← validate_given r.harness_id
  source ← validate_given r.source
  session ← validate_context_field r.session_id true
  namespace ← validate_context_field r.namespace true
  actor ← validate_given r.actor
  claim ← validate_present r.caller_id_claim
  ok (record {
    version = version;
    harness = harness;
    source = source;
    session = session;
    namespace = none_if_blank namespace;
    actor = actor;
    caller_claim = claim;
  })

-- `a and b and a != b`
abbrev pub differ : String → String → Bool
differ a b = not (is_blank a) && not (is_blank b) && not (a =ₛ b)

abbrev pub store_mismatch : String → String → PolicyError
store_mismatch expected actual = record {
  status_code = 409;
  error = "store_mismatch";
  detail = field "expected_store_id" (str expected) (field "actual_store_id" (str actual) end);
}

abbrev context_of : Request → CleanRequest → String → String → CallerContext
context_of r q caller store = record {
  authenticated = false;
  policy_enforced = false;
  caller_id = caller;
  store_id = store;
  session_id = q.session;
  harness_id = q.harness;
  source = q.source;
  namespace = q.namespace;
  credential = none;
  idempotency_key = r.idempotency_key;
  envelope_version = q.version;
  policy_default_secret_action = SecretAction.redact;
  policy_default_private_classification_action = ClassificationAction.omit;
}

-- The context that `resolve_request` returns for a credential.
abbrev authorized :
    PolicyConfig → Request → CleanRequest → String → CallerCredential → CallerContext
authorized cfg r q active cred = record (context_of r q cred.caller_id active) {
  authenticated = true;
  policy_enforced = true;
  credential = some cred;
  policy_default_secret_action = cfg.default_secret_action;
  policy_default_private_classification_action = cfg.default_private_classification_action;
}

-- The branch of `resolve_request` without a credential boundary.
unfoldable pub resolve_embedded : Request → CleanRequest → String → Result PolicyError CallerContext
resolve_embedded r q active = do
  let requested = get_or r.requested_store_id ""
  raise_if (differ requested active) (store_mismatch requested active)
  let caller = or_text q.actor "embedded"
  raise_if
      (not (is_blank q.caller_claim) && not (contains (caller ∷ "anonymous" ∷ []) q.caller_claim))
      impersonation
  ok (context_of r q caller active)

abbrev pub is_enforced : PolicyConfig → Request → Bool
is_enforced cfg r =
    cfg.require_auth
    || not (is_empty cfg.credentials)
    || elim r.token [ none ↦ false | some t ↦ true ]

module _ (p : Platform) where
  -- The first credential that the token matches.
  unfoldable pub find_credential : String → List CallerCredential → Option CallerCredential
  find_credential token [] = none
  find_credential token (c ∷ rest) =
      let found = find_credential token rest in if matches_token p c token then some c else found

  -- The rest of `resolve_request`, for the matched credential.
  unfoldable pub authorize :
      PolicyConfig
      → Request
      → CleanRequest
      → String
      → CallerCredential
      → Result PolicyError CallerContext
  authorize cfg r q active cred = do
    raise_if cred.revoked (policy_error 403 "revoked_credential")
    let requested = get_or r.requested_store_id ""
    raise_if (differ requested active) (store_mismatch requested active)
    raise_if (differ cred.store_id active) (policy_error 409 "store_mismatch")
    raise_if (not (is_blank q.actor) && not (q.actor =ₛ cred.caller_id)) impersonation
    raise_if (not (is_blank q.caller_claim) && not (q.caller_claim =ₛ cred.caller_id)) impersonation
    let others = λ (claims : CallerCredential → List String).
        claimed_of_others claims cred.caller_id cfg.credentials
    check_claim cred.allowed_sessions (others (λ c. c.allowed_sessions)) q.session
    check_claim cred.allowed_sources (others (λ c. c.allowed_sources)) q.source
    check_claim cred.allowed_harnesses (others (λ c. c.allowed_harnesses)) q.harness
    ok (authorized cfg r q active cred)

  unfoldable pub authenticate :
      PolicyConfig → Request → CleanRequest → String → Result PolicyError CallerContext
  authenticate cfg r q active =
      let token = get_or r.token "" in
      if is_blank token
      then err (policy_error 401 "missing_credential")
      else elim (find_credential token cfg.credentials) [
        | none ↦ err (policy_error 401 "invalid_credential")
        | some cred ↦ authorize cfg r q active cred
      ]

  unfoldable pub resolve_request :
      PolicyConfig → String → Request → Result PolicyError CallerContext
  resolve_request cfg runtime_store r = do
    let active = or_text cfg.store_id runtime_store
    q ← clean_request r
    if is_enforced cfg r then authenticate cfg r q active else resolve_embedded r q active
