-- ===== src/Search/Rerank/Select.antt =====
-- The selection by `MMRReranker` of src/hotmem/rerank.py takes candidates out of the pool.
use mathlib.Core.List.{Memᴰ}
use mathlib.Core.Path.{subst}
use hot_mem.Prelude.{
  ℕ, zero, suc, String, ◌≡◌, refl, sym, ap, ◌∙◌, inl, inr, true, false, List, [], ◌∷◌, contains,
  length, ◌=ₛ◌, eq_iff, All, Bool-cases, arith,
}
use hot_mem.Prelude.Strings.{eq-false_of_ne}
use hot_mem.Prelude.Membership.{Memᴰ-cons, All-Memᴰ}
use hot_mem.Log.Tables.{min}
use hot_mem.Search.Rerank.{
  Floats, IsFloats, SearchCandidate, ids_of, key_lt, Pool, key_of, best_from, equal_candidate,
  remove_first, update_sim, select_rounds,
}

-- No text occurs twice.
abbrev pub Distinct : List String → Type 0
Distinct [] = Unit {0}
Distinct (x ∷ xs) = (contains xs x ≡ false) × Distinct xs

pub contains-All :
    {Float : Type 0} (cs : List (SearchCandidate Float)) (id : String)
    → contains (ids_of cs) id ≡ false
    → All (λ c. (c.memory_id =ₛ id) ≡ false) cs
contains-All [] id h = tt
contains-All (c ∷ cs) id h = ground (arith, h, contains-All cs id)

pub All-contains :
    {Float : Type 0} (cs : List (SearchCandidate Float)) (id : String)
    → All (λ c. (c.memory_id =ₛ id) ≡ false) cs
    → contains (ids_of cs) id ≡ false
All-contains [] id h = refl
All-contains (c ∷ cs) id (here, rest) = rw here (All-contains cs id rest)

contains-Memᴰ :
    {Float : Type 0} {b : SearchCandidate Float} {cs : List (SearchCandidate Float)}
    → Memᴰ b cs
    → contains (ids_of cs) b.memory_id ≡ true
contains-Memᴰ {b = b} (Memᴰ.head {x = c} e) = rw (← e, (eq_iff b.memory_id b.memory_id).1 refl) refl
contains-Memᴰ {b = b} (Memᴰ.tail {x = c} m) = ground (arith, contains-Memᴰ m)

module _ {Float : Type 0} (fl : Floats Float) (law : IsFloats fl) where
  equal_candidate_refl : (c : SearchCandidate Float) → equal_candidate fl c c ≡ true
  equal_candidate_refl c =
      rw
        (
          (eq_iff c.memory_id c.memory_id).1 refl,
          law.same_refl c.score,
          (eq_iff c.content c.content).1 refl,
        )
        refl

  best_from-Memᴰ :
      (p : Pool fl) (m : String → Float) (b : SearchCandidate Float)
      (cs : List (SearchCandidate Float))
      → Memᴰ (best_from fl p m b cs) (b ∷ cs)
  best_from-Memᴰ p m b [] = Memᴰ.head refl
  best_from-Memᴰ p m b (c ∷ cs) =
      elim (Bool-cases (key_lt fl (key_of fl p m c) (key_of fl p m b))) [
        | inl e ↦ rw e (Memᴰ.tail (best_from-Memᴰ p m c cs))
        | inr e ↦ rw e (elim (Memᴰ-cons (best_from-Memᴰ p m b cs)) [
          | inl here ↦ Memᴰ.head here
          | inr there ↦ Memᴰ.tail (Memᴰ.tail there)
        ])
      ]

  length-remove_first :
      (b : SearchCandidate Float) (cs : List (SearchCandidate Float))
      → Memᴰ b cs
      → suc (length (remove_first fl b cs)) ≡ length cs
  length-remove_first b [] m = elim m [ ]
  length-remove_first b (c ∷ cs) m = elim (Bool-cases (equal_candidate fl c b)) [
    | inl e ↦ rw e refl
    | inr e ↦ elim (Memᴰ-cons m) [
      | inl here ↦
          let clash : true ≡ false =
            sym (equal_candidate_refl c) ∙ ap (equal_candidate fl c) (sym here) ∙ e in
          cc
      | inr there ↦ rw e (ap suc (length-remove_first b cs there))
    ]
  ]

  All-remove_first :
      (P : SearchCandidate Float → Type 0) (b : SearchCandidate Float)
      (cs : List (SearchCandidate Float))
      → All P cs
      → All P (remove_first fl b cs)
  All-remove_first P b [] h = tt
  All-remove_first P b (c ∷ cs) (here, rest) = elim (Bool-cases (equal_candidate fl c b)) [
    | inl e ↦ rw e rest
    | inr e ↦ rw e (here, All-remove_first P b cs rest)
  ]

  pub All-select_rounds :
      (P : SearchCandidate Float → Type 0) (left : ℕ) (p : Pool fl) (m : String → Float)
      (cs : List (SearchCandidate Float))
      → All P cs
      → All P (select_rounds fl left p m cs)
  unfolding select_rounds
  All-select_rounds P zero p m cs h = tt
  All-select_rounds P (suc left) p m [] h = tt
  All-select_rounds P (suc left) p m (c ∷ cs) h = (
    All-Memᴰ P (c ∷ cs) h (best_from-Memᴰ p m c cs),
    All-select_rounds P left p _ _ (All-remove_first P (best_from fl p m c cs) (c ∷ cs) h),
  )

  pub length-select_rounds :
      (left : ℕ) (p : Pool fl) (m : String → Float) (cs : List (SearchCandidate Float))
      → length (select_rounds fl left p m cs) ≡ min left (length cs)
  unfolding select_rounds
  length-select_rounds zero p m cs = ground arith
  length-select_rounds (suc left) p m [] = ground arith
  length-select_rounds (suc left) p m (c ∷ cs) =
      let best = best_from fl p m c cs in
      let fewer = length-remove_first best (c ∷ cs) (best_from-Memᴰ p m c cs) in
      let rest = remove_first fl best (c ∷ cs) in
      ground (arith, fewer, length-select_rounds left p (update_sim fl p best rest m) rest)

  contains-remove_first :
      (b : SearchCandidate Float) (cs : List (SearchCandidate Float)) (id : String)
      → contains (ids_of cs) id ≡ false
      → contains (ids_of (remove_first fl b cs)) id ≡ false
  contains-remove_first b [] id h = refl
  contains-remove_first b (c ∷ cs) id h = elim (Bool-cases (equal_candidate fl c b)) [
    | inl e ↦ rw e (ground (arith, h))
    | inr e ↦ rw e (ground (arith, h, contains-remove_first b cs id))
  ]

  Distinct-remove_first :
      (b : SearchCandidate Float) (cs : List (SearchCandidate Float))
      → Distinct (ids_of cs)
      → Distinct (ids_of (remove_first fl b cs))
  Distinct-remove_first b [] h = tt
  Distinct-remove_first b (c ∷ cs) (fresh, rest) = elim (Bool-cases (equal_candidate fl c b)) [
    | inl e ↦ rw e rest
    | inr e ↦ rw e (contains-remove_first b cs c.memory_id fresh, Distinct-remove_first b cs rest)
  ]

  contains-remove_first_self :
      (b : SearchCandidate Float) (cs : List (SearchCandidate Float))
      → Distinct (ids_of cs)
      → Memᴰ b cs
      → contains (ids_of (remove_first fl b cs)) b.memory_id ≡ false
  contains-remove_first_self b [] d m = elim m [ ]
  contains-remove_first_self b (c ∷ cs) (fresh, d) m = elim (Bool-cases (equal_candidate fl c b)) [
    | inl e ↦ rw e (subst (λ id. contains (ids_of cs) id ≡ false) (same_id c b e) fresh)
    | inr e ↦ elim (Memᴰ-cons m) [
      | inl here ↦
          let clash : true ≡ false =
            sym (equal_candidate_refl c) ∙ ap (equal_candidate fl c) (sym here) ∙ e in
          cc
      | inr there ↦ rw (e, other_id c b cs fresh there) (contains-remove_first_self b cs d there)
    ]
  ]
    where
      same_id :
          (x y : SearchCandidate Float) → equal_candidate fl x y ≡ true → x.memory_id ≡ y.memory_id
      same_id x y e = ground (arith, e, (eq_iff x.memory_id y.memory_id).0)

      other_id :
          (x y : SearchCandidate Float) (ys : List (SearchCandidate Float))
          → contains (ids_of ys) x.memory_id ≡ false
          → Memᴰ y ys
          → (x.memory_id =ₛ y.memory_id) ≡ false
      other_id x y ys none at = eq-false_of_ne x.memory_id y.memory_id λ e.
          let clash : true ≡ false =
            sym (contains-Memᴰ at) ∙ ap (contains (ids_of ys)) (sym e) ∙ none in
          cc

  pub Distinct-select_rounds :
      (left : ℕ) (p : Pool fl) (m : String → Float) (cs : List (SearchCandidate Float))
      → Distinct (ids_of cs)
      → Distinct (ids_of (select_rounds fl left p m cs))
  unfolding select_rounds
  Distinct-select_rounds zero p m cs d = tt
  Distinct-select_rounds (suc left) p m [] d = tt
  Distinct-select_rounds (suc left) p m (c ∷ cs) d =
      let best = best_from fl p m c cs in
      let rest = remove_first fl best (c ∷ cs) in
      let fresh = contains-remove_first_self best (c ∷ cs) d (best_from-Memᴰ p m c cs) in
      (
        All-contains (select_rounds fl left p (update_sim fl p best rest m) rest) best.memory_id (
            All-select_rounds (λ x. (x.memory_id =ₛ best.memory_id) ≡ false) left p _ rest
              (contains-All rest best.memory_id fresh)),
        Distinct-select_rounds left p _ rest (Distinct-remove_first best (c ∷ cs) d),
      )
