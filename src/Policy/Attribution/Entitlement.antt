-- ===== src/Policy/Attribution/Entitlement.antt =====
-- A write is attributed only to what its caller may claim.
use hot_mem.Prelude.{
  String, ◌≡◌, ◌⊎◌, inl, inr, true, false, some, ok, ◌=ₛ◌, eq_iff, Bool-cases, raise_if-eq-ok,
  ok-injective, >>=-eq-ok, >>-eq-ok, ◌>>=◌, ◌>>◌, raise_if,
}
use hot_mem.Prelude.Strings.{is_blank}
use hot_mem.Json.{Value, null, str, obj, arr, num, bool}
use hot_mem.Policy.Validation.{validate_context_field}
use hot_mem.Policy.Grants.{CallerCredential}
use hot_mem.Policy.Context.{CallerContext, binding}
use hot_mem.Policy.Config.{PolicyConfig, check_claim, validate_given}
use hot_mem.Policy.Config.Resolve.{Entitled, silent, check_claim-Entitled}
use hot_mem.Policy.Attribution.{
  context_conflict, strays, validate_write_source, check_source, Override, Attribution,
  check_caller_claim, effective_field, effective_version, check_claims,
  validate_write_session_and_harness,
}

-- The request names nothing of its own, or the write repeats it.
abbrev pub Keeps : String → String → Type 0
Keeps bound value = (is_blank bound ≡ true) ⊎ (value ≡ bound)

strays-eq-false : (bound value : String) → strays bound value ≡ false → Keeps bound value
strays-eq-false bound value h = elim (Bool-cases (is_blank bound)) [
  | inl blank ↦ inl blank
  | inr given ↦ elim (Bool-cases (value =ₛ bound)) [
    | inl same ↦ inr ((eq_iff value bound).0 same)
    | inr differs ↦ let h' = rw (given, differs) at h in cc h'
  ]
]

checked_field :
    (bound : String) (value : Value) {body : String}
    → (do s ← validate_context_field value false; raise_if (strays bound s) context_conflict; ok s)
      ≡ ok body
    → Keeps bound body
checked_field bound value h =
    let (s, valid, e) = >>=-eq-ok (validate_context_field value false) _ h in
    let (kept, e') = raise_if-eq-ok (strays bound s) context_conflict _ e in
    rw (ok-injective e') (strays-eq-false bound s kept)

effective_field-Keeps :
    (bound : String) (value : Value) {body : String}
    → effective_field bound value ≡ ok body
    → Keeps bound body
unfolding effective_field
effective_field-Keeps bound null h = inr (ok-injective h)
effective_field-Keeps bound (str s) h = checked_field bound (str s) h
effective_field-Keeps bound (obj d) h = checked_field bound (obj d) h
effective_field-Keeps bound (arr l) h = checked_field bound (arr l) h
effective_field-Keeps bound (num s n k) h = checked_field bound (num s n k) h
effective_field-Keeps bound (bool b) h = checked_field bound (bool b) h

module _ (cfg : PolicyConfig) (c : CallerContext) (cred : CallerCredential) where
  -- A write that an authenticated caller may make has a session and a harness that are empty or
  -- that the credential may claim and no other caller's credential lists, and both repeat those of
  -- the request where it has them.
  pub validate_write_session_and_harness-Entitled :
      (o : Override) {a : Attribution}
      → binding c ≡ some cred
      → cred.caller_id ≡ c.caller_id
      → validate_write_session_and_harness cfg c o ≡ ok a
      → Entitled (λ x. x.allowed_sessions) cfg cred a.session
        × Entitled (λ x. x.allowed_harnesses) cfg cred a.harness
        × Keeps c.session_id a.session
        × Keeps c.harness_id a.harness
  unfolding validate_write_session_and_harness check_claims
  validate_write_session_and_harness-Entitled o {a} bound own h =
      let (called, h1) = >>-eq-ok (check_caller_claim c o.caller_id_claim) _ h in
      let (version, v, h2) =
        >>=-eq-ok (effective_version c.envelope_version o.envelope_version) _ h1 in
      let (session, s, h3) = >>=-eq-ok (effective_field c.session_id o.session_id) _ h2 in
      let (harness, n, h4) = >>=-eq-ok (effective_field c.harness_id o.harness_id) _ h3 in
      let (claims, h5) = >>-eq-ok (check_claims cfg c session harness) _ h4 in
      let (first, second) =
        >>-eq-ok (check_claim cred.allowed_sessions _ session) _
          (rw (bound, check_claims) at claims) in
      rw (ok-injective h5) (
        check_claim-Entitled (λ x. x.allowed_sessions) c.caller_id session cfg cred own first,
        check_claim-Entitled (λ x. x.allowed_harnesses) c.caller_id harness cfg cred own second,
        effective_field-Keeps c.session_id o.session_id s,
        effective_field-Keeps c.harness_id o.harness_id n,
      )

  -- A source that an authenticated caller may write is, once it is stripped, empty or one that the
  -- credential may claim and no other caller's credential lists; it is empty, or it repeats the
  -- request's source where it has one.
  pub validate_write_source-Entitled :
      (source : Value)
      → binding c ≡ some cred
      → cred.caller_id ≡ c.caller_id
      → validate_write_source cfg c source ≡ ok tt
      → (clean : String) × (validate_given source ≡ ok clean)
        × Entitled (λ x. x.allowed_sources) cfg cred clean
        × ((is_blank clean ≡ true) ⊎ Keeps c.source clean)
  unfolding validate_write_source check_source
  validate_write_source-Entitled source bound own h =
      let (clean, valid, rest) = >>=-eq-ok (validate_given source) _ h in
      elim (Bool-cases (is_blank clean)) [
        | inl blank ↦ (clean, valid, silent blank, inl blank)
        | inr given ↦
            let (kept, claims) = raise_if-eq-ok (strays c.source clean) _ _ (rw given at rest) in
            (
              clean,
              valid,
              check_claim-Entitled (λ x. x.allowed_sources) c.caller_id clean cfg cred own
                  (rw (bound, check_source) at claims),
              inr (strays-eq-false c.source clean kept),
            )
      ]
