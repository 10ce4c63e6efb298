-- ===== src/Search/Rerank/Ids.antt =====
-- Lists of ids in which none occurs twice, and the check of src/hotmem/rerank.py on them.
use hot_mem.Prelude.{
  ℕ, zero, suc, ◌+◌, ◌-◌, String, ◌≡◌, refl, sym, ap, ◌∙◌, inl, inr, true, false, not, List, [],
  ◌∷◌, ◌++◌, keep, contains, length, ◌=ₛ◌, eq_iff, All, Bool-cases, arith,
}
use hot_mem.Prelude.Strings.{eq-false_of_ne, ne_of_eq-false}
use hot_mem.Log.Tables.{min}
use hot_mem.Search.Rerank.{SearchCandidate, take_first, ids_of, check_ids}
use hot_mem.Search.Rerank.Select.{Distinct}

-- Each entry is, or is not, in a list.
abbrev pub Within : List String → List String → Type 0
Within known ids = All (λ id. contains known id ≡ true) ids

abbrev pub Outside : List String → List String → Type 0
Outside seen ids = All (λ id. contains seen id ≡ false) ids

flip : (x y : String) → (x =ₛ y) ≡ false → (y =ₛ x) ≡ false
flip x y h = eq-false_of_ne y x (λ e. ne_of_eq-false x y h (sym e))

Outside-cons :
    (x : String) (seen ids : List String)
    → contains ids x ≡ false
    → Outside seen ids
    → Outside (x ∷ seen) ids
Outside-cons x seen [] h o = tt
Outside-cons x seen (id ∷ ids) h (here, rest) =
    (ground (arith, h, here, flip id x), Outside-cons x seen ids (ground (arith, h)) rest)

pub check_ids-true :
    (seen known ids : List String)
    → Within known ids
    → Outside seen ids
    → Distinct ids
    → check_ids seen known ids ≡ true
unfolding check_ids
check_ids-true seen known [] w o d = refl
check_ids-true seen known (id ∷ ids) (here, w) (fresh, o) (once, d) =
    rw (here, fresh) (check_ids-true (id ∷ seen) known ids w (Outside-cons id seen ids once o) d)

pub Outside-nil : (ids : List String) → Outside [] ids
Outside-nil [] = tt
Outside-nil (id ∷ ids) = (refl, Outside-nil ids)

Within-weaken : (x : String) (known ids : List String) → Within known ids → Within (x ∷ known) ids
Within-weaken x known [] w = tt
Within-weaken x known (id ∷ ids) (here, w) = (ground (arith, here), Within-weaken x known ids w)

pub Within-refl : (ids : List String) → Within ids ids
Within-refl [] = tt
Within-refl (id ∷ ids) =
    (rw ((eq_iff id id).1 refl) refl, Within-weaken id ids ids (Within-refl ids))

pub ids_of-take_first :
    {Float : Type 0} (n : ℕ) (cs : List (SearchCandidate Float))
    → ids_of (take_first n cs) ≡ take_first n (ids_of cs)
ids_of-take_first zero cs = refl
ids_of-take_first (suc n) [] = refl
ids_of-take_first (suc n) (c ∷ cs) = ap (λ ids. c.memory_id ∷ ids) (ids_of-take_first n cs)

pub All-take_first :
    (P : String → Type 0) (n : ℕ) (ids : List String) → All P ids → All P (take_first n ids)
All-take_first P zero ids h = tt
All-take_first P (suc n) [] h = tt
All-take_first P (suc n) (id ∷ ids) (here, rest) = (here, All-take_first P n ids rest)

contains-take_first :
    (n : ℕ) (ids : List String) (x : String)
    → contains ids x ≡ false
    → contains (take_first n ids) x ≡ false
contains-take_first zero ids x h = refl
contains-take_first (suc n) [] x h = refl
contains-take_first (suc n) (id ∷ ids) x h = ground (arith, h, contains-take_first n ids x)

pub Distinct-take_first : (n : ℕ) (ids : List String) → Distinct ids → Distinct (take_first n ids)
Distinct-take_first zero ids d = tt
Distinct-take_first (suc n) [] d = tt
Distinct-take_first (suc n) (id ∷ ids) (fresh, d) =
    (contains-take_first n ids id fresh, Distinct-take_first n ids d)

pub length-take_first :
    {A : Type 0} (n : ℕ) (xs : List A) → length (take_first n xs) ≡ min n (length xs)
length-take_first zero xs = ground arith
length-take_first (suc n) [] = ground arith
length-take_first (suc n) (x ∷ xs) = ground (arith, length-take_first n xs)

-- The ids of a list that are not among others.
abbrev pub without : List String → List String → List String
without seen ids = keep (λ id. not (contains seen id)) ids

pub Outside-without : (seen ids : List String) → Outside seen (without seen ids)
Outside-without seen [] = tt
Outside-without seen (id ∷ ids) = elim (Bool-cases (contains seen id)) [
  | inl e ↦ rw e (Outside-without seen ids)
  | inr e ↦ rw e (e, Outside-without seen ids)
]

pub All-without :
    (P : String → Type 0) (seen ids : List String) → All P ids → All P (without seen ids)
All-without P seen [] h = tt
All-without P seen (id ∷ ids) (here, rest) = elim (Bool-cases (contains seen id)) [
  | inl e ↦ rw e (All-without P seen ids rest)
  | inr e ↦ rw e (here, All-without P seen ids rest)
]

contains-without :
    (seen ids : List String) (x : String)
    → contains ids x ≡ false
    → contains (without seen ids) x ≡ false
contains-without seen [] x h = refl
contains-without seen (id ∷ ids) x h = elim (Bool-cases (contains seen id)) [
  | inl e ↦ rw e (contains-without seen ids x (ground (arith, h)))
  | inr e ↦ rw e (ground (arith, h, contains-without seen ids x))
]

pub Distinct-without : (seen ids : List String) → Distinct ids → Distinct (without seen ids)
Distinct-without seen [] d = tt
Distinct-without seen (id ∷ ids) (fresh, d) = elim (Bool-cases (contains seen id)) [
  | inl e ↦ rw e (Distinct-without seen ids d)
  | inr e ↦ rw e (contains-without seen ids id fresh, Distinct-without seen ids d)
]

without-cons :
    (x : String) (seen ids : List String)
    → contains ids x ≡ false
    → without (x ∷ seen) ids ≡ without seen ids
without-cons x seen [] h = refl
without-cons x seen (id ∷ ids) h = ground (arith, h, flip id x, without-cons x seen ids)

length-keep_all : (ids : List String) → length (without [] ids) ≡ length ids
length-keep_all [] = refl
length-keep_all (id ∷ ids) = ap suc (length-keep_all ids)

pub length-without_first :
    (n : ℕ) (ids : List String)
    → Distinct ids
    → length (without (take_first n ids) ids) ≡ length ids - n
length-without_first zero ids d = omega (arith, length-keep_all ids)
length-without_first (suc n) [] d = omega arith
length-without_first (suc n) (id ∷ ids) (fresh, d) =
    rw ((eq_iff id id).1 refl, without-cons id (take_first n ids) ids fresh)
      (omega (arith, length-without_first n ids d))

contains-Within :
    (pool ids : List String) (x : String)
    → Within pool ids
    → contains pool x ≡ false
    → contains ids x ≡ false
contains-Within pool [] x w h = refl
contains-Within pool (id ∷ ids) x (here, w) h =
    let apart : (id =ₛ x) ≡ false =
      eq-false_of_ne id x
        λ e. let clash : true ≡ false = sym here ∙ ap (contains pool) e ∙ h in cc in
    rw apart (contains-Within pool ids x w h)

pub Outside-Within :
    (pool ids others : List String) → Within pool ids → Outside pool others → Outside ids others
Outside-Within pool ids [] w o = tt
Outside-Within pool ids (x ∷ xs) w (here, o) =
    (contains-Within pool ids x w here, Outside-Within pool ids xs w o)

contains-append :
    (xs ys : List String) (x : String)
    → contains xs x ≡ false
    → contains ys x ≡ false
    → contains (xs ++ ys) x ≡ false
contains-append [] ys x h k = k
contains-append (y ∷ xs) ys x h k = ground (arith, h, contains-append xs ys x)

Outside-uncons :
    (x : String) (seen ids : List String)
    → Outside (x ∷ seen) ids
    → (contains ids x ≡ false) × Outside seen ids
Outside-uncons x seen [] o = (refl, tt)
Outside-uncons x seen (id ∷ ids) (here, o) =
    let (apart, rest) = Outside-uncons x seen ids o in
    (ground (arith, here, apart, flip x id), (ground (arith, here), rest))

pub Distinct-append :
    (xs ys : List String) → Distinct xs → Distinct ys → Outside xs ys → Distinct (xs ++ ys)
Distinct-append [] ys d e o = e
Distinct-append (x ∷ xs) ys (fresh, d) e o =
    let (apart, rest) = Outside-uncons x xs ys o in
    (contains-append xs ys x fresh apart, Distinct-append xs ys d e rest)

pub All-append :
    (P : String → Type 0) (xs ys : List String) → All P xs → All P ys → All P (xs ++ ys)
All-append P [] ys h k = k
All-append P (x ∷ xs) ys (here, rest) k = (here, All-append P xs ys rest k)

pub length-append : (xs ys : List String) → length (xs ++ ys) ≡ length xs + length ys
length-append [] ys = omega arith
length-append (x ∷ xs) ys = omega (arith, length-append xs ys)
