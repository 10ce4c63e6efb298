-- ===== src/Policy/Context/Access.antt =====
-- The row and namespace tests of `CallerContext` decide a declarative relation.
use mathlib.Core.List.{Memᴰ}
use hot_mem.Prelude.{
  String, ◌≡◌, refl, ◌⊎◌, inl, inr, Bool, true, false, ◌&&◌, not, List, [], ◌∷◌, arith, ◌=ₛ◌,
  eq_iff, contains, if◌then◌else◌,
}
use hot_mem.Prelude.Membership.{or-eq-true, contains→Memᴰ, Memᴰ→contains}
use hot_mem.Json.{Fields, get}
use hot_mem.Policy.Platform.{Platform, str_or_empty}
use hot_mem.Policy.Grants.{ShareApproval, CallerCredential, excludes, allows_row, grants}

-- A list that restricts only when it has entries.
abbrev pub Permits : List String → String → Type 0
Permits xs x = (xs ≡ []) ⊎ Memᴰ x xs

pub excludes→Permits : (xs : List String) (x : String) → excludes xs x ≡ false → Permits xs x
excludes→Permits [] x h = inl refl
excludes→Permits (y ∷ ys) x h = inr (contains→Memᴰ (y ∷ ys) x (ground arith))

pub Permits→excludes : (xs : List String) (x : String) → Permits xs x → excludes xs x ≡ false
Permits→excludes xs x (inl e) = rw e refl
Permits→excludes xs x (inr m) = ground (arith, Memᴰ→contains m)

and-eq-true : (a b : Bool) → (a && b) ≡ true → (a ≡ true) × (b ≡ true)
and-eq-true true b h = (refl, h)
and-eq-true false b h = cc

-- The credential's own grant.
pub record Owns (cred : CallerCredential) (op target : String) : Type 0 where
  pub operation : Memᴰ op cred.operations
  pub namespace : Memᴰ "*" cred.namespaces ⊎ Memᴰ target cred.namespaces

pub grants→Owns :
    (cred : CallerCredential) (operation target : String)
    → grants cred operation target ≡ true
    → Owns cred operation target
unfolding grants
grants→Owns cred operation target h =
    let (o, n) = and-eq-true (contains cred.operations operation) _ h in
    record {
      operation = contains→Memᴰ cred.operations operation o;
      namespace = elim (or-eq-true (contains cred.namespaces "*") _ n) [
        | inl e ↦ inl (contains→Memᴰ cred.namespaces "*" e)
        | inr e ↦ inr (contains→Memᴰ cred.namespaces target e)
      ];
    }

pub Owns→grants :
    (cred : CallerCredential) (operation target : String)
    → Owns cred operation target
    → grants cred operation target ≡ true
unfolding grants
Owns→grants cred operation target h = elim h.namespace [
  | inl m ↦ ground (arith, Memᴰ→contains h.operation, Memᴰ→contains m)
  | inr m ↦ ground (arith, Memᴰ→contains h.operation, Memᴰ→contains m)
]

six_guards :
    (a b c d e f : Bool)
    → (if a
        then false
        else if b
        then false
        else if not c
        then false
        else if not d
        then false
        else if e
        then false
        else not f)
      ≡ true
    → (a ≡ false) × (b ≡ false) × (c ≡ true) × (d ≡ true) × (e ≡ false) × (f ≡ false)
six_guards a b c d e f h = ground arith

module _ (p : Platform) (caller op : String) (row : Fields) where
  -- The approval covers the row for this caller and operation.
  pub record Covers (s : ShareApproval) : Type 0 where
    pub live : s.revoked ≡ false
    pub audience : Permits s.audience caller
    pub operation : Memᴰ op s.operations
    pub namespace : str_or_empty p (get "namespace" row) ≡ s.namespace
    pub memory : Permits s.memory_ids (str_or_empty p (get "id" row))
    pub identifier : Permits s.identifiers (str_or_empty p (get "identifier" row))

  pub allows_row→Covers : (s : ShareApproval) → allows_row p s row caller op ≡ true → Covers s
  unfolding allows_row
  allows_row→Covers s h =
      let memory_id : String = str_or_empty p (get "id" row) in
      let name : String = str_or_empty p (get "identifier" row) in
      let home : String = str_or_empty p (get "namespace" row) in
      let (a, b, c, d, e, f) =
        six_guards s.revoked (excludes s.audience caller) (contains s.operations op)
          (home =ₛ s.namespace) (excludes s.memory_ids memory_id) (excludes s.identifiers name) h in
      record {
        live = a;
        audience = excludes→Permits s.audience caller b;
        operation = contains→Memᴰ s.operations op c;
        namespace = (eq_iff home s.namespace).0 d;
        memory = excludes→Permits s.memory_ids memory_id e;
        identifier = excludes→Permits s.identifiers name f;
      }

  pub Covers→allows_row : (s : ShareApproval) → Covers s → allows_row p s row caller op ≡ true
  unfolding allows_row
  Covers→allows_row s h = rw (
    h.live,
    Permits→excludes s.audience caller h.audience,
    Memᴰ→contains h.operation,
    (eq_iff _ _).1 h.namespace,
    Permits→excludes s.memory_ids _ h.memory,
    Permits→excludes s.identifiers _ h.identifier,
  )

  -- What a credential lets its caller do with the row.
  pub data MayAccess (cred : CallerCredential) : Type 0 where
    own : Owns cred op (str_or_empty p (get "namespace" row)) → MayAccess cred
    shared : (s : ShareApproval) → Memᴰ s cred.share_approvals → Covers s → MayAccess cred
