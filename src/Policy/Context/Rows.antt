-- ===== src/Policy/Context/Rows.antt =====
-- Which rows `can_access_row` and `filter_rows` let a request see.
use mathlib.Core.List.{Memᴰ}
use mathlib.Core.Path.{subst}
use hot_mem.Prelude.{
  String, ◌≡◌, refl, sym, ◌↔◌, ◌⊎◌, inl, inr, Bool, true, false, Option, none, some, List, arith,
  ◌=ₛ◌, eq_iff, any, Option-cases, if◌then◌else◌,
}
use hot_mem.Prelude.Membership.{any→Memᴰ, Memᴰ→any, Memᴰ-keep, keep-Memᴰ}
use hot_mem.Json.{Fields, get}
use hot_mem.Policy.Platform.{Platform, str_or_empty}
use hot_mem.Policy.Grants.{ShareApproval, CallerCredential, allows_namespace, allows_row, grants}
use hot_mem.Policy.Context.{
  CallerContext, binding, outside, can_access_row, filter_rows, in_namespace,
}
use hot_mem.Policy.Context.Access.{
  grants→Owns, Owns→grants, allows_row→Covers, Covers→allows_row, MayAccess, own, shared,
}

-- The request names no namespace, or this one.
abbrev pub InScope : Option String → String → Type 0
InScope none target = Unit
InScope (some scope) target = target ≡ scope

pub outside→InScope : (n : Option String) (t : String) → outside n t ≡ false → InScope n t
outside→InScope none t h = tt
outside→InScope (some s) t h = (eq_iff t s).0 (ground arith)

pub InScope→outside : (n : Option String) (t : String) → InScope n t → outside n t ≡ false
InScope→outside none t h = refl
InScope→outside (some s) t h = ground (arith, (eq_iff t s).1 h)

pub three_guards :
    (o g a : Bool)
    → (if o then false else if g then true else a) ≡ true
    → (o ≡ false) × ((g ≡ true) ⊎ (a ≡ true))
three_guards o g a h = ground arith

pub guards_pass :
    (o g a : Bool)
    → o ≡ false
    → (g ≡ true) ⊎ (a ≡ true)
    → (if o then false else if g then true else a) ≡ true
guards_pass o g a h k = ground arith

module _ (p : Platform) (c : CallerContext) (cred : CallerCredential) (op : String)
    (row : Fields) where
  abbrev home : String
  home = str_or_empty p (get "namespace" row)

  abbrev shares : Bool
  shares = any (λ s. allows_row p s row c.caller_id op) cred.share_approvals

  can_access_row-guards :
      binding c ≡ some cred
      → can_access_row p c row op
        ≡ (if outside c.namespace home then false else if grants cred op home then true else shares)
  unfolding can_access_row
  can_access_row-guards b = rw (b, can_access_row)

  granted→MayAccess :
      (grants cred op home ≡ true) ⊎ (shares ≡ true) → MayAccess p c.caller_id op row cred
  granted→MayAccess (inl g) = own (grants→Owns cred op home g)
  granted→MayAccess (inr a) =
      let (s, at, h) = any→Memᴰ (λ s. allows_row p s row c.caller_id op) cred.share_approvals a in
      shared s at (allows_row→Covers p c.caller_id op row s h)

  MayAccess→granted :
      MayAccess p c.caller_id op row cred → (grants cred op home ≡ true) ⊎ (shares ≡ true)
  MayAccess→granted (own o) = inl (Owns→grants cred op home o)
  MayAccess→granted (shared s at h) = inr (
      Memᴰ→any (λ s. allows_row p s row c.caller_id op) at
        (Covers→allows_row p c.caller_id op row s h))

  -- Under a credential, a row may be accessed exactly when it lies in the request's namespace and
  -- the credential owns that namespace for the operation or holds an approval that covers the row.
  pub can_access_row_iff :
      binding c ≡ some cred
      → (can_access_row p c row op ≡ true) ↔ (
          InScope c.namespace (str_or_empty p (get "namespace" row))
          × MayAccess p c.caller_id op row cred)
  can_access_row_iff b = rw (can_access_row-guards b) (
    λ h.
        let (o, k) = three_guards (outside c.namespace home) (grants cred op home) shares h in
        (outside→InScope c.namespace home o, granted→MayAccess k),
    λ h. guards_pass _ _ _ (InScope→outside c.namespace home h.0) (MayAccess→granted h.1),
  )

  allows_row→allows_namespace :
      (s : ShareApproval)
      → allows_row p s row c.caller_id op ≡ true
      → allows_namespace s home c.caller_id op ≡ true
  unfolding allows_namespace allows_row
  allows_row→allows_namespace s h =
      let k = allows_row→Covers p c.caller_id op row s h in
      ground (arith, k.live, (eq_iff s.namespace home).1 (sym k.namespace))

-- What a request sees of a row: with no binding credential all of it, else what the credential may
-- access.
pub data Sees (p : Platform) (c : CallerContext) (op : String) (row : Fields) : Type 0 where
  unbound : binding c ≡ none → Sees p c op row
  bound :
      (cred : CallerCredential)
      → binding c ≡ some cred
      → MayAccess p c.caller_id op row cred
      → Sees p c op row

module _ (p : Platform) (c : CallerContext) (op : String) (rows : List Fields) (row : Fields) where
  abbrev where_from : String
  where_from = str_or_empty p (get "namespace" row)

  in_namespace_iff :
      (n : Option String)
      → Memᴰ row (in_namespace p n rows) ↔ (Memᴰ row rows × InScope n where_from)
  in_namespace_iff none = (λ m. (m, tt), λ m. m.0)
  in_namespace_iff (some scope) = (
    λ m.
        let (at, e) = Memᴰ-keep (λ r. str_or_empty p (get "namespace" r) =ₛ scope) rows m in
        (at, (eq_iff where_from scope).0 e),
    λ m.
        keep-Memᴰ (λ r. str_or_empty p (get "namespace" r) =ₛ scope) m.0
          ((eq_iff where_from scope).1 m.1),
  )

  filter_rows-unbound :
      binding c ≡ none
      → Memᴰ row (filter_rows p c rows op)
        ↔ (Memᴰ row rows × InScope c.namespace where_from × Sees p c op row)
  unfolding filter_rows
  filter_rows-unbound b =
      rw (b, filter_rows)
        (
          λ m. let (at, e) = (in_namespace_iff c.namespace).0 m in (at, e, unbound b),
          λ m. (in_namespace_iff c.namespace).1 (m.0, m.1),
        )

  filter_rows-bound :
      (cred : CallerCredential)
      → binding c ≡ some cred
      → Memᴰ row (filter_rows p c rows op)
        ↔ (Memᴰ row rows × InScope c.namespace where_from × Sees p c op row)
  unfolding filter_rows
  filter_rows-bound cred b =
      rw (b, filter_rows)
        (
          λ m.
              let (at, e) = Memᴰ-keep (λ r. can_access_row p c r op) rows m in
              let (scope, may) = (can_access_row_iff p c cred op row b).0 e in
              (at, scope, bound cred b may),
          λ m.
              keep-Memᴰ (λ r. can_access_row p c r op) m.0
                ((can_access_row_iff p c cred op row b).1 (m.1, sees_bound m.2)),
        )
    where
      sees_bound : Sees p c op row → MayAccess p c.caller_id op row cred
      sees_bound (unbound e) = cc
      sees_bound (bound other e may) = subst (MayAccess p c.caller_id op row) (ground arith) may

  -- `filter_rows` keeps exactly the given rows that lie in the request's namespace and that the
  -- request sees: without a binding credential every such row, else what the credential may access.
  pub filter_rows_iff : Memᴰ row (filter_rows p c rows op) ↔ (
      Memᴰ row rows × InScope c.namespace (str_or_empty p (get "namespace" row)) × Sees p c op row)
  filter_rows_iff = elim (Option-cases (binding c)) [
    | inl e ↦ filter_rows-unbound e
    | inr (cred, e) ↦ filter_rows-bound cred e
  ]
