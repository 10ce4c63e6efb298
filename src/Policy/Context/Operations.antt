-- ===== src/Policy/Context/Operations.antt =====
-- `require_operation` of src/hotmem/policy.py: which operations a request may perform.
use mathlib.Core.List.{Memᴰ}
use hot_mem.Prelude.{
  String, ◌≡◌, ◌≢◌, refl, ◌↔◌, ◌⊎◌, inl, inr, true, false, ◌&&◌, not, some, arith, ◌=ₛ◌, eq_iff,
  contains, Bool-cases, Option-cases, if◌then◌else◌, ok, raise_if, ◌>>◌, Result, raise_if-eq-ok,
}
use hot_mem.Prelude.Membership.{any→Memᴰ, Memᴰ→any, contains→Memᴰ, Memᴰ→contains, or-eq-true}
use hot_mem.Prelude.Strings.{ne_of_eq-false}
use hot_mem.Policy.Errors.{PolicyError, policy_error}
use hot_mem.Policy.Grants.{ShareApproval, CallerCredential}
use hot_mem.Policy.Context.{
  CallerContext, binding, can_access_namespace, require_operation, shared_operation, scope_blocks,
  scope_denied,
}

-- What `require_operation` asks of a credential.
pub data Permitted (c : CallerContext) (cred : CallerCredential) (op : String) : Type 0 where
  manage : op ≡ "manage" → cred.is_management ≡ true → Permitted c cred op
  memory :
      op ≢ "manage"
      → Memᴰ op cred.operations
        ⊎ ((s : ShareApproval) × Memᴰ s cred.share_approvals
            × (s.revoked ≡ false)
            × Memᴰ op s.operations)
      → ((t : String) → c.namespace ≡ some t → can_access_namespace c t op ≡ true)
      → Permitted c cred op

memory_guards : CallerContext → CallerCredential → String → Result PolicyError (Unit {0})
memory_guards c cred op = do
  raise_if (not (contains cred.operations op) && not (shared_operation cred op)) scope_denied
  raise_if (scope_blocks c op) scope_denied

module _ (c : CallerContext) (cred : CallerCredential) (op : String) where
  abbrev ScopeOpen : Type 0
  ScopeOpen = (t : String) → c.namespace ≡ some t → can_access_namespace c t op ≡ true

  scope_blocks→open : scope_blocks c op ≡ false → ScopeOpen
  scope_blocks→open h t e = ground arith

  open→scope_blocks : ScopeOpen → scope_blocks c op ≡ false
  open→scope_blocks h = elim (Option-cases c.namespace) [
    | inl e ↦ ground arith
    | inr (t, e) ↦ ground (arith, h t e)
  ]

  abbrev OwnOrShared : Type 0
  OwnOrShared =
      Memᴰ op cred.operations
      ⊎ ((s : ShareApproval) × Memᴰ s cred.share_approvals
          × (s.revoked ≡ false)
          × Memᴰ op s.operations)

  OwnOrShared_lem :
      (not (contains cred.operations op) && not (shared_operation cred op)) ≡ false → OwnOrShared
  OwnOrShared_lem h =
      elim (or-eq-true (contains cred.operations op) (shared_operation cred op) (ground arith)) [
        | inl e ↦ inl (contains→Memᴰ cred.operations op e)
        | inr e ↦
            let (s, at, k) =
              any→Memᴰ (λ s. not s.revoked && contains s.operations op) cred.share_approvals e in
            inr (s, at, ground arith, contains→Memᴰ s.operations op (ground arith))
      ]

  denied-OwnOrShared :
      OwnOrShared → (not (contains cred.operations op) && not (shared_operation cred op)) ≡ false
  denied-OwnOrShared (inl m) = rw (Memᴰ→contains m) refl
  denied-OwnOrShared (inr (s, at, live, m)) =
      let shared =
        Memᴰ→any (λ (s : ShareApproval). not s.revoked && contains s.operations op) at
          (rw (live, Memᴰ→contains m) refl) in
      ground (arith, shared)

  memory_guards_iff : (memory_guards c cred op ≡ ok tt) ↔ (OwnOrShared × ScopeOpen)
  unfolding memory_guards
  memory_guards_iff = (
    λ h.
        let (d, k) =
          raise_if-eq-ok (not (contains cred.operations op) && not (shared_operation cred op))
            scope_denied _ h in
        (OwnOrShared_lem d, scope_blocks→open (ground arith)),
    λ h. rw (denied-OwnOrShared h.0, open→scope_blocks h.1) refl,
  )

  require_guards :
      binding c ≡ some cred
      → require_operation c op ≡ (
          if op =ₛ "manage"
          then raise_if (not cred.is_management) (policy_error 403 "management_authority_required")
          else memory_guards c cred op)
  unfolding require_operation memory_guards
  require_guards b = rw (b, require_operation)

  Permitted-manage : op ≡ "manage" → Permitted c cred op → cred.is_management ≡ true
  Permitted-manage e (manage m h) = h
  Permitted-manage e (memory ne o s) = absurd (ne e)

  Permitted-memory : op ≢ "manage" → Permitted c cred op → OwnOrShared × ScopeOpen
  Permitted-memory ne (manage e h) = absurd (ne e)
  Permitted-memory ne (memory n o s) = (o, s)

  -- Under a credential `require_operation` lets `manage` through exactly for management authority,
  -- and any other operation exactly when the credential or one of its live approvals names it and
  -- the request's namespace, if it names one, may be accessed for it.
  pub require_operation_iff :
      binding c ≡ some cred → (require_operation c op ≡ ok tt) ↔ Permitted c cred op
  require_operation_iff b = elim (Bool-cases (op =ₛ "manage")) [
    | inl e ↦ rw (require_guards b) (
        rw e (
          λ h. manage ((eq_iff op "manage").0 e) (ground arith),
          λ h. rw (Permitted-manage ((eq_iff op "manage").0 e) h) refl,
        ))
    | inr e ↦
        let ne : op ≢ "manage" = ne_of_eq-false op "manage" e in
        rw (require_guards b) (
          rw e (
            λ h. let (o, s) = memory_guards_iff.0 h in memory ne o s,
            λ h. memory_guards_iff.1 (Permitted-memory ne h),
          ))
  ]
