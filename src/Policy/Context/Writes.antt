-- ===== src/Policy/Context/Writes.antt =====
-- Where a request may write.
use mathlib.Core.List.{Memᴰ}
use hot_mem.Prelude.{
  String, ◌≡◌, ◌≢◌, refl, ◌↔◌, ◌⊎◌, inl, inr, Bool, true, false, not, some, arith, ◌=ₛ◌, eq_iff,
  contains, any, if◌then◌else◌, ok, raise_if, ◌>>◌, Result, raise_if-eq-ok, ok-injective,
}
use hot_mem.Prelude.Membership.{any→Memᴰ, Memᴰ→any, contains→Memᴰ, Memᴰ→contains}
use hot_mem.Prelude.Strings.{ne_of_eq-false, eq-false_of_ne}
use mathlib.Core.Path.{subst}
use hot_mem.Policy.Errors.{PolicyError, policy_error}
use hot_mem.Policy.Grants.{ShareApproval, CallerCredential, excludes, allows_namespace, grants}
use hot_mem.Policy.Context.{
  CallerContext, binding, outside, can_access_namespace, write_target, effective_write_namespace,
  scope_denied,
}
use hot_mem.Policy.Context.Access.{
  Permits, excludes→Permits, Permits→excludes, Owns, grants→Owns, Owns→grants,
}
use hot_mem.Policy.Context.Rows.{
  InScope, outside→InScope, InScope→outside, three_guards, guards_pass,
}

-- The approval covers the whole namespace for this caller and operation.
pub record Admits (caller op target : String) (s : ShareApproval) : Type 0 where
  pub live : s.revoked ≡ false
  pub audience : Permits s.audience caller
  pub operation : Memᴰ op s.operations
  pub namespace : s.namespace ≡ target

four_guards :
    (a b c d : Bool)
    → (if a then false else if b then false else if not c then false else d) ≡ true
    → (a ≡ false) × (b ≡ false) × (c ≡ true) × (d ≡ true)
four_guards a b c d h = ground arith

pub data MayEnter (caller op target : String) (cred : CallerCredential) : Type 0 where
  own : Owns cred op target → MayEnter caller op target cred
  shared :
      (s : ShareApproval)
      → Memᴰ s cred.share_approvals
      → Admits caller op target s
      → MayEnter caller op target cred

module _ (caller op target : String) where
  allows_namespace→Admits :
      (s : ShareApproval) → allows_namespace s target caller op ≡ true → Admits caller op target s
  unfolding allows_namespace
  allows_namespace→Admits s h =
      let (a, b, c, d) =
        four_guards s.revoked (excludes s.audience caller) (contains s.operations op)
          (s.namespace =ₛ target) h in
      record {
        live = a;
        audience = excludes→Permits s.audience caller b;
        operation = contains→Memᴰ s.operations op c;
        namespace = (eq_iff s.namespace target).0 d;
      }

  Admits→allows_namespace :
      (s : ShareApproval) → Admits caller op target s → allows_namespace s target caller op ≡ true
  unfolding allows_namespace
  Admits→allows_namespace s h =
      rw (h.live, Permits→excludes s.audience caller h.audience, Memᴰ→contains h.operation)
        ((eq_iff s.namespace target).1 h.namespace)

module _ (c : CallerContext) (cred : CallerCredential) (op target : String) where
  abbrev shares : Bool
  shares = any (λ s. allows_namespace s target c.caller_id op) cred.share_approvals

  can_access_namespace-guards :
      binding c ≡ some cred
      → can_access_namespace c target op ≡ (
          if outside c.namespace target
          then false
          else if grants cred op target
          then true
          else shares)
  unfolding can_access_namespace
  can_access_namespace-guards b = rw (b, can_access_namespace)

  granted→MayEnter :
      (grants cred op target ≡ true) ⊎ (shares ≡ true) → MayEnter c.caller_id op target cred
  granted→MayEnter (inl g) = own (grants→Owns cred op target g)
  granted→MayEnter (inr a) =
      let (s, at, h) =
        any→Memᴰ (λ s. allows_namespace s target c.caller_id op) cred.share_approvals a in
      shared s at (allows_namespace→Admits c.caller_id op target s h)

  MayEnter→granted :
      MayEnter c.caller_id op target cred → (grants cred op target ≡ true) ⊎ (shares ≡ true)
  MayEnter→granted (own o) = inl (Owns→grants cred op target o)
  MayEnter→granted (shared s at h) = inr (
      Memᴰ→any (λ s. allows_namespace s target c.caller_id op) at
        (Admits→allows_namespace c.caller_id op target s h))

  pub can_access_namespace_iff :
      binding c ≡ some cred
      → (can_access_namespace c target op ≡ true)
        ↔ (InScope c.namespace target × MayEnter c.caller_id op target cred)
  can_access_namespace_iff b = rw (can_access_namespace-guards b) (
    λ h.
        let (o, k) = three_guards (outside c.namespace target) (grants cred op target) shares h in
        (outside→InScope c.namespace target o, granted→MayEnter k),
    λ h. guards_pass _ _ _ (InScope→outside c.namespace target h.0) (MayEnter→granted h.1),
  )

abbrev guarded_write : CallerContext → String → Result PolicyError String
guarded_write c target = do
  raise_if (target =ₛ "*") (policy_error 400 "namespace_required")
  raise_if (not (can_access_namespace c target "write")) scope_denied
  ok target

module _ (c : CallerContext) (cred : CallerCredential) (b : binding c ≡ some cred) where
  write_guards : effective_write_namespace c ≡ guarded_write c (write_target c cred)
  unfolding effective_write_namespace
  write_guards = rw (b, effective_write_namespace)

  -- A write goes to namespace `t` exactly when `t` is the request's namespace, or else the first
  -- that the credential names, it is not the wildcard, and the credential may write there.
  pub effective_write_namespace_iff :
      (t : String)
      → (effective_write_namespace c ≡ ok t) ↔ (
          (t ≡ write_target c cred)
          × (t ≢ "*")
          × InScope c.namespace t
          × MayEnter c.caller_id "write" t cred)
  effective_write_namespace_iff t = rw write_guards (forth, back)
    where
      forth :
          guarded_write c (write_target c cred) ≡ ok t
          → (t ≡ write_target c cred)
            × (t ≢ "*")
            × InScope c.namespace t
            × MayEnter c.caller_id "write" t cred
      forth h =
          let target : String = write_target c cred in
          let (w, h') = raise_if-eq-ok (target =ₛ "*") _ _ h in
          let (d, done) =
            raise_if-eq-ok (not (can_access_namespace c target "write")) scope_denied (ok target)
              h' in
          let (scope, may) = (can_access_namespace_iff c cred "write" target b).0 (ground arith) in
          let e : t ≡ target = ok-injective done in
          rw e (refl, ne_of_eq-false target "*" w, scope, may)

      back :
          (t ≡ write_target c cred)
            × (t ≢ "*")
            × InScope c.namespace t
            × MayEnter c.caller_id "write" t cred
          → guarded_write c (write_target c cred) ≡ ok t
      back (e, w, scope, may) =
          let granted = (can_access_namespace_iff c cred "write" t b).1 (scope, may) in
          subst (λ u. guarded_write c u ≡ ok t) e (rw (eq-false_of_ne t "*" w, granted))
