-- ===== src/Policy/Config/Resolve.antt =====
-- What holds of a context that `resolve_request` returns.
use mathlib.Core.List.{Memᴰ}
use hot_mem.Prelude.{
  String, ◌≡◌, ◌≢◌, refl, ◌⊎◌, inl, inr, Bool, true, false, ◌&&◌, not, some, List, [], ◌∷◌, ◌++◌,
  arith, ◌=ₛ◌, eq_iff, contains, Bool-cases, Option-cases, ap, ◌∙◌, sym, ◌||◌, if◌then◌else◌,
  get_or, ok, raise_if-eq-ok, ok-injective, >>-eq-ok, >>=-eq-ok,
}
use hot_mem.Prelude.Membership.{Memᴰ-cons}
use hot_mem.Prelude.Strings.{is_blank}
use hot_mem.Policy.Platform.{Platform}
use hot_mem.Policy.Grants.{CallerCredential, excludes, matches_token}
use hot_mem.Policy.Context.{CallerContext, or_text}
use hot_mem.Policy.Context.Access.{Permits, excludes→Permits}
use hot_mem.Policy.Config.{
  PolicyConfig, Request, CleanRequest, clean_request, claimed_of_others, check_claim, impersonation,
  differ, find_credential, authorize, authorized, authenticate, is_enforced, resolve_request,
}

-- The claim is empty, or the credential may make it and no other caller's credential lists it.
pub data Entitled (claims : CallerCredential → List String) (cfg : PolicyConfig)
    (cred : CallerCredential) (claim : String) : Type 0 where
  silent : is_blank claim ≡ true → Entitled claims cfg cred claim
  entitled :
      Permits (claims cred) claim
      → ((other : CallerCredential)
          → Memᴰ other cfg.credentials
          → other.caller_id ≢ cred.caller_id
          → contains (claims other) claim ≡ false)
      → Entitled claims cfg cred claim

or-eq-false : (a b : Bool) → (a || b) ≡ false → (a ≡ false) × (b ≡ false)
or-eq-false true b h = cc
or-eq-false false b h = (refl, h)

contains-append-false :
    (xs ys : List String) (x : String)
    → contains (xs ++ ys) x ≡ false
    → (contains xs x ≡ false) × (contains ys x ≡ false)
contains-append-false [] ys x h = (refl, h)
contains-append-false (y ∷ xs) ys x h =
    let (a, b) = or-eq-false (y =ₛ x) (contains (xs ++ ys) x) h in
    let (c, d) = contains-append-false xs ys x b in (rw (a, c), d)

-- One credential's part of the claims of others.
skipped_or_absent :
    (same : Bool) (xs rest : List String) (x : String)
    → contains (if not same then xs ++ rest else rest) x ≡ false
    → ((same ≡ true) ⊎ (contains xs x ≡ false)) × (contains rest x ≡ false)
skipped_or_absent true xs rest x h = (inl refl, h)
skipped_or_absent false xs rest x h = let (a, b) = contains-append-false xs rest x h in (inr a, b)

module _ (claims : CallerCredential → List String) (caller claim : String) where
  foreign :
      (c other : CallerCredential)
      → other ≡ c
      → other.caller_id ≢ caller
      → ((c.caller_id =ₛ caller) ≡ true) ⊎ (contains (claims c) claim ≡ false)
      → contains (claims other) claim ≡ false
  foreign c other here ne (inl same) =
      absurd (ne (ap (λ o. o.caller_id) here ∙ (eq_iff c.caller_id caller).0 same))
  foreign c other here ne (inr absent) = rw here absent

  claimed_of_others_complete :
      (creds : List CallerCredential)
      → contains (claimed_of_others claims caller creds) claim ≡ false
      → (other : CallerCredential) → Memᴰ other creds
      → other.caller_id ≢ caller
      → contains (claims other) claim ≡ false
  unfolding claimed_of_others
  claimed_of_others_complete [] h other m ne = elim m [ ]
  claimed_of_others_complete (c ∷ rest) h other m ne =
      let (own, others) =
        skipped_or_absent (c.caller_id =ₛ caller) (claims c) (claimed_of_others claims caller rest)
          claim h in
      let later = claimed_of_others_complete rest others other in
      elim (Memᴰ-cons m) [ inl here ↦ foreign c other here ne own | inr there ↦ later there ne ]

  pub check_claim-Entitled :
      (cfg : PolicyConfig) (cred : CallerCredential)
      → cred.caller_id ≡ caller
      → check_claim (claims cred) (claimed_of_others claims caller cfg.credentials) claim ≡ ok tt
      → Entitled claims cfg cred claim
  unfolding check_claim
  check_claim-Entitled cfg cred e h = elim (Bool-cases (is_blank claim)) [
    | inl blank ↦ silent blank
    | inr given ↦
        let (x, k) =
          raise_if-eq-ok (excludes (claims cred) claim) impersonation _
            (rw (given, check_claim) at h) in
        entitled (excludes→Permits (claims cred) claim x) (λ other at ne.
          claimed_of_others_complete cfg.credentials (ground arith) other at
            (λ same. ne (same ∙ sym e)))
  ]

-- What an authenticated context rests on.
pub record IsAuthorized (p : Platform) (cfg : PolicyConfig) (r : Request) (c : CallerContext)
    (cred : CallerCredential) : Type 0 where
  pub known : Memᴰ cred cfg.credentials
  pub token : matches_token p cred (get_or r.token "") ≡ true
  pub live : cred.revoked ≡ false
  pub bound : c.credential ≡ some cred
  pub enforced : (c.policy_enforced ≡ true) × (c.authenticated ≡ true)
  pub caller : c.caller_id ≡ cred.caller_id
  pub same_store : differ (get_or r.requested_store_id "") c.store_id ≡ false
  pub own_store : differ cred.store_id c.store_id ≡ false
  pub session : Entitled (λ o. o.allowed_sessions) cfg cred c.session_id
  pub source : Entitled (λ o. o.allowed_sources) cfg cred c.source
  pub harness : Entitled (λ o. o.allowed_harnesses) cfg cred c.harness_id

module _ (p : Platform) where
  find_credential-known :
      (token : String) (creds : List CallerCredential) {cred : CallerCredential}
      → find_credential p token creds ≡ some cred
      → Memᴰ cred creds × (matches_token p cred token ≡ true)
  unfolding find_credential
  find_credential-known token [] h = cc
  find_credential-known token (c ∷ rest) {cred} h = elim (Bool-cases (matches_token p c token)) [
    | inl e ↦ let same : cred ≡ c = ground arith in (Memᴰ.head same, rw same e)
    | inr e ↦ let (at, k) = find_credential-known token rest (ground arith) in (Memᴰ.tail at, k)
  ]

  authorize-IsAuthorized :
      (cfg : PolicyConfig) (r : Request) (q : CleanRequest) (active : String)
      (cred : CallerCredential) {c : CallerContext}
      → authorize p cfg r q active cred ≡ ok c
      → Memᴰ cred cfg.credentials
      → matches_token p cred (get_or r.token "") ≡ true
      → IsAuthorized p cfg r c cred
  unfolding authorize
  authorize-IsAuthorized cfg r q active cred {c} h at token =
      let (a, h) = raise_if-eq-ok cred.revoked _ _ h in
      let (b, h) = raise_if-eq-ok (differ (get_or r.requested_store_id "") active) _ _ h in
      let (d, h) = raise_if-eq-ok (differ cred.store_id active) _ _ h in
      let (e, h) =
        raise_if-eq-ok (not (is_blank q.actor) && not (q.actor =ₛ cred.caller_id)) _ _ h in
      let (f, h) =
        raise_if-eq-ok (not (is_blank q.caller_claim) && not (q.caller_claim =ₛ cred.caller_id)) _ _
          h in
      let (s, h) =
        >>-eq-ok (check_claim cred.allowed_sessions (others (λ o. o.allowed_sessions)) q.session) _
          h in
      let (o, h) =
        >>-eq-ok (check_claim cred.allowed_sources (others (λ o. o.allowed_sources)) q.source) _
          h in
      let (t, h) =
        >>-eq-ok (check_claim cred.allowed_harnesses (others (λ o. o.allowed_harnesses)) q.harness)
          (ok (authorized cfg r q active cred)) h in
      rw (ok-injective h) (record {
        known = at;
        token = token;
        live = a;
        bound = refl;
        enforced = (refl, refl);
        caller = refl;
        same_store = b;
        own_store = d;
        session =
            check_claim-Entitled (λ o. o.allowed_sessions) cred.caller_id q.session cfg cred refl s;
        source =
            check_claim-Entitled (λ o. o.allowed_sources) cred.caller_id q.source cfg cred refl o;
        harness =
            check_claim-Entitled (λ o. o.allowed_harnesses) cred.caller_id q.harness cfg cred refl
              t;
      })
    where
      others : (CallerCredential → List String) → List String
      others claims = claimed_of_others claims cred.caller_id cfg.credentials

  authenticate-IsAuthorized :
      (cfg : PolicyConfig) (r : Request) (q : CleanRequest) (active : String) {c : CallerContext}
      → authenticate p cfg r q active ≡ ok c
      → (cred : CallerCredential) × IsAuthorized p cfg r c cred
  unfolding authenticate
  authenticate-IsAuthorized cfg r q active {c} h = elim (Bool-cases (is_blank token)) [
    | inl blank ↦ let k = rw (blank, authenticate) at h in cc k
    | inr given ↦ elim (Option-cases (find_credential p token cfg.credentials)) [
      | inl unknown ↦ let k = rw (given, unknown, authenticate) at h in cc k
      | inr (cred, found) ↦
          let (at, matches) = find_credential-known token cfg.credentials found in
          (
            cred,
            authorize-IsAuthorized cfg r q active cred (rw (given, found, authenticate) at h) at
                matches,
          )
    ]
  ]
    where
      token : String
      token = get_or r.token ""

  -- Where the policy is enforced, a request that is resolved carries the token of a credential of
  -- the configuration that is not revoked; its context acts as that credential's caller, for a
  -- store that neither the request nor the credential contradicts, and with a session, a source and
  -- a harness each of which is empty, or is permitted by the credential and listed by no credential
  -- of another caller.
  pub resolve_request-IsAuthorized :
      (cfg : PolicyConfig) (store : String) (r : Request) {c : CallerContext}
      → is_enforced cfg r ≡ true
      → resolve_request p cfg store r ≡ ok c
      → (cred : CallerCredential) × IsAuthorized p cfg r c cred
  unfolding resolve_request
  resolve_request-IsAuthorized cfg store r e h =
      let (q, hq, k) = >>=-eq-ok (clean_request r) _ h in
      authenticate-IsAuthorized cfg r q (or_text cfg.store_id store) (rw e at k)
