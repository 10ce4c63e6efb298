-- ===== src/Events/State/Pairs.antt =====
-- Binding and freeing a pair of a namespace and a hash.
use hot_mem.Prelude.{
  String, ◌≡◌, ◌≢◌, refl, ◌⊎◌, inl, inr, none, some, ◌=ₛ◌, eq_iff, Bool-cases, arith,
}
use hot_mem.Events.State.{bind_pair, free_pair, Index}

module _ (index : Index) (ns hash id n h j : String) (held : index n h ≡ some j)
    (other : j ≢ id) where
  -- Binding a free pair to an id leaves the pairs of the others.
  pub bind_pair-other :
      (index ns hash ≡ none) ⊎ (index ns hash ≡ some id) → bind_pair ns hash id index n h ≡ some j
  bind_pair-other free = elim (Bool-cases (ns =ₛ n)) [
    | inr differs ↦ rw differs held
    | inl same_ns ↦ elim (Bool-cases (hash =ₛ h)) [
      | inr differs ↦ rw (same_ns, differs) held
      | inl same_hash ↦
          let n_eq = (eq_iff ns n).0 same_ns in
          let h_eq = (eq_iff hash h).0 same_hash in absurd (grind arith)
    ]
  ]

  -- Freeing the pair of an id leaves the pairs of the others.
  pub free_pair-other :
      (hash ≢ h) ⊎ (index ns hash ≡ some id) → free_pair ns hash index n h ≡ some j
  free_pair-other free = elim (Bool-cases (ns =ₛ n)) [
    | inr differs ↦ rw differs held
    | inl same_ns ↦ elim (Bool-cases (hash =ₛ h)) [
      | inr differs ↦ rw (same_ns, differs) held
      | inl same_hash ↦
          let n_eq = (eq_iff ns n).0 same_ns in
          let h_eq = (eq_iff hash h).0 same_hash in absurd (grind arith)
    ]
  ]

pub bind_pair-own :
    (index : Index) (ns hash id : String) → bind_pair ns hash id index ns hash ≡ some id
bind_pair-own index ns hash id = rw ((eq_iff ns ns).1 refl) (rw ((eq_iff hash hash).1 refl) refl)

-- A freed pair is held by nobody or by whom it was.
pub free_pair-free :
    (index : Index) (ns hash id n h : String)
    → (index n h ≡ none) ⊎ (index n h ≡ some id)
    → (free_pair ns hash index n h ≡ none) ⊎ (free_pair ns hash index n h ≡ some id)
free_pair-free index ns hash id n h free = elim (Bool-cases (ns =ₛ n)) [
  | inr differs ↦ rw differs free
  | inl same_ns ↦ elim (Bool-cases (hash =ₛ h)) [
    | inr differs ↦ rw (same_ns, differs) free
    | inl same_hash ↦ rw (same_ns, same_hash) (inl refl)
  ]
]
