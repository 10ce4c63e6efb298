-- ===== src/Policy/Config/Revoked.antt =====
-- What the revocations of `PolicyConfig` achieve.
use mathlib.Core.List.{Memᴰ}
use mathlib.Core.Path.{subst}
use hot_mem.Prelude.{
  ◌+◌, String, ◌≡◌, ◌≢◌, ◌↔◌, refl, sym, Bool, true, false, ◌||◌, some, List, [], ◌∷◌, arith, ◌=ₛ◌,
  contains, ok, ap, ◌∙◌, map,
}
use hot_mem.Prelude.Strings.{ne_of_eq-false}
use hot_mem.Prelude.Membership.{Memᴰ-map, map-Memᴰ}
use hot_mem.Json.{Fields, get}
use hot_mem.Policy.Platform.{Platform, str_or_empty}
use hot_mem.Policy.Grants.{ShareApproval, CallerCredential}
use hot_mem.Policy.Context.{CallerContext, can_access_row}
use hot_mem.Policy.Context.Access.{Owns, Covers, MayAccess, own, shared}
use hot_mem.Policy.Context.Rows.{InScope, can_access_row_iff}
use hot_mem.Policy.Config.{
  PolicyConfig, Request, revoke_credential, revoke_caller, revoke_approval_in,
  revoke_share_approval, is_enforced, resolve_request,
}
use hot_mem.Policy.Config.Resolve.{resolve_request-IsAuthorized}
use hot_mem.Policy.Config.Revocation.{
  revoke_if, revoked_for, revoke_shares-map, revoke_shares_again, revoke_credential-eq,
  revoke_credentials-map, revoke_credentials_again,
}

-- Revoking a caller bumps the revision, keeps every credential in its place, revokes exactly those
-- of the caller and, in every credential, exactly the approvals whose audience names the caller;
-- what was revoked stays so. Doing it again revokes nothing more.
pub revoke_caller_lem :
    (cfg : PolicyConfig) (caller : String)
    → ((revoke_caller cfg caller).0 ≡ record cfg {
      credentials = map (revoked_for caller) cfg.credentials;
      revision = cfg.revision + 1;
    })
      × (revoke_caller (revoke_caller cfg caller).0 caller ≡ (
        record cfg {
          credentials = map (revoked_for caller) cfg.credentials;
          revision = cfg.revision + 1 + 1;
        },
        0,
      ))
unfolding revoke_caller
revoke_caller_lem cfg caller =
    let m = revoke_credentials-map caller cfg.credentials in
    let a = revoke_credentials_again caller cfg.credentials in (cc m, cc (m, a))

abbrev pub without_approval : String → CallerCredential → CallerCredential
without_approval approval c = record c {
  share_approvals = map (λ s. revoke_if (s.approval_id =ₛ approval) s) c.share_approvals;
}

revoke_approval_in-map :
    (approval : String) (creds : List CallerCredential)
    → (revoke_approval_in approval creds).0 ≡ map (without_approval approval) creds
unfolding revoke_approval_in
revoke_approval_in-map approval [] = refl
revoke_approval_in-map approval (c ∷ rest) = cc (
  revoke_shares-map (λ s. s.approval_id =ₛ approval) c.share_approvals,
  revoke_approval_in-map approval rest,
)

revoke_approval_in_again :
    (approval : String) (creds : List CallerCredential)
    → revoke_approval_in approval (revoke_approval_in approval creds).0
      ≡ ((revoke_approval_in approval creds).0, 0)
unfolding revoke_approval_in
revoke_approval_in_again approval [] = refl
revoke_approval_in_again approval (c ∷ rest) = ground (
  arith,
  revoke_shares_again (λ s. s.approval_id =ₛ approval) (λ s. refl) c.share_approvals,
  revoke_approval_in_again approval rest,
)

-- Revoking an approval bumps the revision and revokes exactly the approvals with that identifier,
-- in every credential; what was revoked stays so. Doing it again revokes nothing more.
pub revoke_share_approval_lem :
    (cfg : PolicyConfig) (approval : String)
    → ((revoke_share_approval cfg approval).0 ≡ record cfg {
      credentials = map (without_approval approval) cfg.credentials;
      revision = cfg.revision + 1;
    })
      × ((revoke_share_approval (revoke_share_approval cfg approval).0 approval).1 ≡ 0)
unfolding revoke_share_approval
revoke_share_approval_lem cfg approval = (
  cc (revoke_approval_in-map approval cfg.credentials),
  cc (revoke_approval_in_again approval cfg.credentials),
)

or-false : (a b : Bool) → (a || b) ≡ false → (a ≡ false) × (b ≡ false)
or-false true b h = cc
or-false false b h = (refl, h)

-- After a caller has been revoked, no request that the policy enforces is resolved to that caller.
pub revoked_caller_locked_out :
    (p : Platform) (cfg : PolicyConfig) (caller store : String) (r : Request) {c : CallerContext}
    → is_enforced (revoke_caller cfg caller).0 r ≡ true
    → resolve_request p (revoke_caller cfg caller).0 store r ≡ ok c
    → c.caller_id ≢ caller
revoked_caller_locked_out p cfg caller store r {c} e h same =
    let (cred, a) = resolve_request-IsAuthorized p (revoke_caller cfg caller).0 store r e h in
    let known =
      subst (λ (g : PolicyConfig). Memᴰ cred g.credentials) (revoke_caller_lem cfg caller).0
        a.known in
    let (old, at, became) = Memᴰ-map (revoked_for caller) cfg.credentials known in
    let (live, other) =
      or-false old.revoked (old.caller_id =ₛ caller) (sym (ap (λ o. o.revoked) became) ∙ a.live) in
    ne_of_eq-false old.caller_id caller other
      (sym (ap (λ o. o.caller_id) became) ∙ sym a.caller ∙ same)

-- What a credential still gives once `caller` has been revoked: its own grant, or an approval that
-- covers the row and does not name that caller.
pub data MayStill (p : Platform) (who op : String) (row : Fields) (caller : String)
    (cred : CallerCredential) : Type 0 where
  own_still :
      Owns cred op (str_or_empty p (get "namespace" row)) → MayStill p who op row caller cred
  shared_still :
      (s : ShareApproval)
      → Memᴰ s cred.share_approvals
      → contains s.audience caller ≡ false
      → Covers p who op row s
      → MayStill p who op row caller cred

module _ (p : Platform) (caller op : String) (row : Fields) (who : String) where
  Covers-revoke_if :
      (s : ShareApproval) (b : Bool)
      → Covers p who op row (revoke_if b s)
      → Covers p who op row s × (b ≡ false)
  Covers-revoke_if s b h = (
    record {
      live = (or-false s.revoked b h.live).0;
      audience = h.audience;
      operation = h.operation;
      namespace = h.namespace;
      memory = h.memory;
      identifier = h.identifier;
    },
    (or-false s.revoked b h.live).1,
  )

  revoke_if-Covers :
      (s : ShareApproval) (b : Bool)
      → b ≡ false
      → Covers p who op row s
      → Covers p who op row (revoke_if b s)
  revoke_if-Covers s b e h = record {
    live = rw (h.live, e) refl;
    audience = h.audience;
    operation = h.operation;
    namespace = h.namespace;
    memory = h.memory;
    identifier = h.identifier;
  }

  MayAccess-MayStill :
      (cred : CallerCredential)
      → MayAccess p who op row (revoked_for caller cred)
      → MayStill p who op row caller cred
  MayAccess-MayStill cred (own o) =
      own_still (record { operation = o.operation; namespace = o.namespace })
  MayAccess-MayStill cred (shared s at h) =
      let (old, m, e) =
        Memᴰ-map (λ s. revoke_if (contains s.audience caller) s) cred.share_approvals at in
      let (covers, unnamed) =
        Covers-revoke_if old (contains old.audience caller) (subst (Covers p who op row) e h) in
      shared_still old m unnamed covers

  MayStill-MayAccess :
      (cred : CallerCredential)
      → MayStill p who op row caller cred
      → MayAccess p who op row (revoked_for caller cred)
  MayStill-MayAccess cred (own_still o) =
      own (record { operation = o.operation; namespace = o.namespace })
  MayStill-MayAccess cred (shared_still s at unnamed h) =
      shared (revoke_if (contains s.audience caller) s)
        (map-Memᴰ (λ s. revoke_if (contains s.audience caller) s) at)
        (revoke_if-Covers s (contains s.audience caller) unnamed h)

-- With the form of its credential that the revocation of `caller` leaves, a context under an enforced
-- policy may access a row exactly when the row lies in the request's namespace and the credential
-- itself grants the operation there, or one of its approvals covers the row and does not name
-- `caller` in its audience.
pub revoke_credential_iff :
    (p : Platform) (caller op : String) (row : Fields) (c : CallerContext) (cred : CallerCredential)
    → c.policy_enforced ≡ true
    → (can_access_row p (record c { credential = some (revoke_credential caller cred).0 }) row op
        ≡ true)
      ↔ (InScope c.namespace (str_or_empty p (get "namespace" row))
          × MayStill p c.caller_id op row caller cred)
revoke_credential_iff p caller op row c cred e =
    let after : CallerCredential = (revoke_credential caller cred).0 in
    let access =
      can_access_row_iff p (record c { credential = some after }) after op row (rw e refl) in
    let same = revoke_credential-eq caller cred in
    (
      λ h.
          let (scope, may) = access.0 h in
          (
            scope,
            MayAccess-MayStill p caller op row c.caller_id cred
                (subst (MayAccess p c.caller_id op row) same may),
          ),
      λ h. access.1 (
        h.0,
        subst (MayAccess p c.caller_id op row) (sym same)
            (MayStill-MayAccess p caller op row c.caller_id cred h.1),
      ),
    )
