-- ===== src/Policy/Attribution.antt =====
-- The attribution of a write, in src/hotmem/policy.py: `validate_write_source` and
-- `validate_write_session_and_harness`.
pub mod Entitlement
use hot_mem.Prelude.{
  String, Bool, true, false, ◌&&◌, not, Option, none, some, [], ◌∷◌, if◌then◌else◌, contains, ◌=ₛ◌,
  Result, ok, err, ◌>>=◌, ◌>>◌, raise_if,
}
use hot_mem.Prelude.Strings.{is_blank}
use hot_mem.Json.{Value, null}
use hot_mem.Policy.Errors.{PolicyError, policy_error}
use hot_mem.Policy.Validation.{validate_context_field, validate_envelope_version}
use hot_mem.Policy.Grants.{CallerCredential}
use hot_mem.Policy.Context.{CallerContext, binding}
use hot_mem.Policy.Config.{
  PolicyConfig, impersonation, check_claim, claimed_of_others, validate_given,
}

abbrev pub context_conflict : PolicyError
context_conflict = policy_error 400 "context_conflict"

-- `bound and value != bound`
abbrev pub strays : String → String → Bool
strays bound value = not (is_blank bound) && not (value =ₛ bound)

unfoldable pub check_source : PolicyConfig → CallerContext → String → Result PolicyError (Unit {0})
check_source cfg c clean = do
  raise_if (strays c.source clean) (if c.policy_enforced then impersonation else context_conflict)
  elim (binding c) [
    | none ↦ ok tt
    | some cred ↦
        check_claim cred.allowed_sources
          (claimed_of_others (λ o. o.allowed_sources) c.caller_id cfg.credentials) clean
  ]

unfoldable pub validate_write_source :
    PolicyConfig → CallerContext → Value → Result PolicyError (Unit {0})
validate_write_source cfg c source = do
  clean ← validate_given source
  if is_blank clean then ok tt else check_source cfg c clean

-- The keyword arguments of `validate_write_session_and_harness`.
pub record Override : Type 0 where
  pub session_id : Value
  pub harness_id : Value
  pub envelope_version : Value
  pub caller_id_claim : Value

pub record Attribution : Type 0 where
  pub session : String
  pub harness : String
  pub version : String

unfoldable pub check_caller_claim : CallerContext → Value → Result PolicyError (Unit {0})
check_caller_claim c null = ok tt
check_caller_claim c claim = do
  claimed ← validate_context_field claim false
  raise_if
      (not (
        contains (if c.policy_enforced then c.caller_id ∷ [] else c.caller_id ∷ "anonymous" ∷ [])
          claimed))
      impersonation

-- A field of the payload must repeat the request's own, if there is one.
unfoldable pub effective_field : String → Value → Result PolicyError String
effective_field bound null = ok bound
effective_field bound value = do
  body ← validate_context_field value false
  raise_if (strays bound body) context_conflict
  ok body

unfoldable pub effective_version : String → Value → Result PolicyError String
effective_version bound null = ok bound
effective_version bound value = do
  body ← validate_envelope_version value
  raise_if (strays bound body) context_conflict
  ok body

unfoldable pub check_claims :
    PolicyConfig → CallerContext → String → String → Result PolicyError (Unit {0})
check_claims cfg c session harness = elim (binding c) [
  | none ↦ ok tt
  | some cred ↦ do
    check_claim cred.allowed_sessions
        (claimed_of_others (λ o. o.allowed_sessions) c.caller_id cfg.credentials) session
    check_claim cred.allowed_harnesses
        (claimed_of_others (λ o. o.allowed_harnesses) c.caller_id cfg.credentials) harness
]

unfoldable pub validate_write_session_and_harness :
    PolicyConfig → CallerContext → Override → Result PolicyError Attribution
validate_write_session_and_harness cfg c o = do
  check_caller_claim c o.caller_id_claim
  version ← effective_version c.envelope_version o.envelope_version
  session ← effective_field c.session_id o.session_id
  harness ← effective_field c.harness_id o.harness_id
  check_claims cfg c session harness
  ok (record { session = session; harness = harness; version = version })
