-- ===== src/Prelude/Membership.antt =====
-- The Boolean tests on lists, and membership.
use mathlib.Core.List.{Memᴰ}
use mathlib.Core.Path.{subst}
use hot_mem.Prelude.{
  ap, String, ◌≡◌, refl, sym, ◌⊎◌, inl, inr, Bool, true, false, ◌||◌, List, [], ◌∷◌, ◌++◌, map,
  arith, ◌=ₛ◌, eq_iff, contains, any, All, keep, Bool-cases, if◌then◌else◌,
}

pub or-eq-true : (a b : Bool) → (a || b) ≡ true → (a ≡ true) ⊎ (b ≡ true)
or-eq-true true b h = inl refl
or-eq-true false b h = inr h

pub contains→Memᴰ : (xs : List String) (x : String) → contains xs x ≡ true → Memᴰ x xs
contains→Memᴰ [] x h = cc
contains→Memᴰ (y ∷ ys) x h = elim (or-eq-true (y =ₛ x) (contains ys x) h) [
  | inl e ↦ Memᴰ.head (sym ((eq_iff y x).0 e))
  | inr m ↦ Memᴰ.tail (contains→Memᴰ ys x m)
]

pub Memᴰ→contains : {x : String} {xs : List String} → Memᴰ x xs → contains xs x ≡ true
Memᴰ→contains {x} (Memᴰ.head {x = y} e) = rw ((eq_iff y x).1 (sym e)) refl
Memᴰ→contains {x} (Memᴰ.tail {x = y} m) = ground (arith, Memᴰ→contains m)

pub Memᴰ-cons {ℓ} : {A : Type ℓ} {x y : A} {ys : List A} → Memᴰ x (y ∷ ys) → (x ≡ y) ⊎ Memᴰ x ys
Memᴰ-cons (Memᴰ.head e) = inl e
Memᴰ-cons (Memᴰ.tail m) = inr m

pub Memᴰ-snoc {ℓ} :
    {A : Type ℓ} {x : A} (xs : List A) (y : A) → Memᴰ x (xs ++ y ∷ []) → (x ≡ y) ⊎ Memᴰ x xs
Memᴰ-snoc [] y m = Memᴰ-cons m
Memᴰ-snoc (z ∷ xs) y m = elim (Memᴰ-cons m) [
  | inl here ↦ inr (Memᴰ.head here)
  | inr there ↦ elim (Memᴰ-snoc xs y there) [ inl e ↦ inl e | inr at ↦ inr (Memᴰ.tail at) ]
]

pub Memᴰ-append {ℓ} :
    {A : Type ℓ} {x : A} {xs : List A} (ys : List A) → Memᴰ x xs → Memᴰ x (xs ++ ys)
Memᴰ-append ys (Memᴰ.head e) = Memᴰ.head e
Memᴰ-append ys (Memᴰ.tail m) = Memᴰ.tail (Memᴰ-append ys m)

pub Memᴰ-at_end {ℓ} : {A : Type ℓ} (xs : List A) (y : A) → Memᴰ y (xs ++ y ∷ [])
Memᴰ-at_end [] y = Memᴰ.head refl
Memᴰ-at_end (x ∷ xs) y = Memᴰ.tail (Memᴰ-at_end xs y)

pub Memᴰ-map {ℓ κ} :
    {A : Type ℓ} {B : Type κ} (f : A → B) (xs : List A) {y : B}
    → Memᴰ y (map f xs)
    → (x : A) × Memᴰ x xs × (y ≡ f x)
Memᴰ-map f [] m = elim m [ ]
Memᴰ-map f (x ∷ xs) m = elim (Memᴰ-cons m) [
  | inl here ↦ (x, Memᴰ.head refl, here)
  | inr there ↦ let (z, at, e) = Memᴰ-map f xs there in (z, Memᴰ.tail at, e)
]

pub map-Memᴰ {ℓ κ} :
    {A : Type ℓ} {B : Type κ} (f : A → B) {x : A} {xs : List A} → Memᴰ x xs → Memᴰ (f x) (map f xs)
map-Memᴰ f (Memᴰ.head e) = Memᴰ.head (ap f e)
map-Memᴰ f (Memᴰ.tail m) = Memᴰ.tail (map-Memᴰ f m)

module _ {ℓ} {A : Type ℓ} (p : A → Bool) where
  pub any→Memᴰ : (xs : List A) → any p xs ≡ true → (x : A) × Memᴰ x xs × (p x ≡ true)
  any→Memᴰ [] h = cc
  any→Memᴰ (y ∷ ys) h = elim (or-eq-true (p y) (any p ys) h) [
    | inl e ↦ (y, Memᴰ.head refl, e)
    | inr m ↦ let (x, at, e) = any→Memᴰ ys m in (x, Memᴰ.tail at, e)
  ]

  pub Memᴰ→any : {x : A} {xs : List A} → Memᴰ x xs → p x ≡ true → any p xs ≡ true
  Memᴰ→any {x} (Memᴰ.head {x = y} e) h = rw (← e, h)
  Memᴰ→any {x} (Memᴰ.tail {x = y} m) h = ground (arith, Memᴰ→any m h)

  pub Memᴰ-keep : (xs : List A) {x : A} → Memᴰ x (keep p xs) → Memᴰ x xs × (p x ≡ true)
  Memᴰ-keep [] m = elim m [ ]
  Memᴰ-keep (y ∷ ys) {x} m = elim (Bool-cases (p y)) [
    | inl e ↦ elim (Memᴰ-cons (subst (λ b. Memᴰ x (if b then y ∷ keep p ys else keep p ys)) e m)) [
      | inl here ↦ (Memᴰ.head here, rw here e)
      | inr there ↦ let (at, h) = Memᴰ-keep ys there in (Memᴰ.tail at, h)
    ]
    | inr e ↦
        let rest = subst (λ b. Memᴰ x (if b then y ∷ keep p ys else keep p ys)) e m in
        let (at, h) = Memᴰ-keep ys rest in (Memᴰ.tail at, h)
  ]

  pub keep-Memᴰ : {x : A} {xs : List A} → Memᴰ x xs → p x ≡ true → Memᴰ x (keep p xs)
  keep-Memᴰ {x} (Memᴰ.head {x = y} {xs = ys} e) h = rw (← e, h) (Memᴰ.head refl)
  keep-Memᴰ {x} (Memᴰ.tail {x = y} {xs = ys} m) h = elim (Bool-cases (p y)) [
    | inl e ↦ rw e (Memᴰ.tail (keep-Memᴰ m h))
    | inr e ↦ rw e (keep-Memᴰ m h)
  ]

-- What holds of each entry of a list.
pub All-Memᴰ {ℓ κ} :
    {A : Type ℓ} (P : A → Type κ) (xs : List A) {x : A} → All P xs → Memᴰ x xs → P x
All-Memᴰ P [] h m = elim m [ ]
All-Memᴰ P (y ∷ ys) (here, there) m = elim (Memᴰ-cons m) [
  | inl e ↦ subst P (sym e) here
  | inr at ↦ All-Memᴰ P ys there at
]
