-- ===== src/Json/Lookup.antt =====
-- Reading a dictionary after an assignment.
use hot_mem.Prelude.{
  String, ◌≡◌, refl, ap, ◌∙◌, false, Bool-cases, inl, inr, ◌=ₛ◌, eq_iff, if◌then◌else◌,
}
use hot_mem.Json.{Value, Fields, end, field, get, put}

pub get-put_self : (k : String) (v : Value) (d : Fields) → get k (put k v d) ≡ v
unfolding get put
get-put_self k v end = rw (eq_iff k k).1 refl
get-put_self k v (field j w d) = elim (Bool-cases (j =ₛ k)) [
  | inl same ↦ rw same (rw same refl)
  | inr other ↦ rw other (rw other (get-put_self k v d))
]

pub get-put_ne :
    (j k : String) (v : Value) (d : Fields) → (j =ₛ k) ≡ false → get k (put j v d) ≡ get k d
unfolding get put
get-put_ne j k v end h = rw h refl
get-put_ne j k v (field i w d) h = elim (Bool-cases (i =ₛ j)) [
  | inl same ↦
      let h' : (i =ₛ k) ≡ false = ap (λ x. x =ₛ k) ((eq_iff i j).0 same) ∙ h in rw same (rw h' refl)
  | inr other ↦ rw other (ap (λ rest. if i =ₛ k then w else rest) (get-put_ne j k v d h))
]
