-- ===== src/Events/State/Maps.antt =====
-- Reading a dictionary after a change.
use hot_mem.Prelude.{
  String, ◌≡◌, ◌≢◌, refl, sym, ap, ◌⊎◌, inl, inr, Option, none, some, ◌=ₛ◌, eq_iff, Bool-cases,
}
use hot_mem.Events.State.{put_at, drop_at}

pub put_at-cases :
    {A : Type 0} (k : String) (v : A) (m : String → Option A) (j : String) (w : A)
    → put_at k v m j ≡ some w
    → ((j ≡ k) × (w ≡ v)) ⊎ ((j ≢ k) × (m j ≡ some w))
put_at-cases k v m j w h = elim (Bool-cases (k =ₛ j)) [
  | inl same ↦ let v_eq : some v ≡ some w = rw same at h in inl (sym ((eq_iff k j).0 same), cc)
  | inr differs ↦ inr ((λ e. cc ((eq_iff k j).1 (sym e))), rw differs at h)
]

pub drop_at-cases :
    {A : Type 0} (k : String) (m : String → Option A) (j : String) (w : A)
    → drop_at k m j ≡ some w
    → (j ≢ k) × (m j ≡ some w)
drop_at-cases k m j w h = elim (Bool-cases (k =ₛ j)) [
  | inl same ↦ let h' = rw same at h in cc
  | inr differs ↦ ((λ e. cc ((eq_iff k j).1 (sym e))), rw differs at h)
]

-- A key with a value is another key than one without.
pub keys-differ :
    {A : Type 0} (m : String → Option A) (j k : String) (w : A) → m j ≡ some w → m k ≡ none → j ≢ k
keys-differ m j k w there gone e = let h = ap m e in cc

pub put_at-other :
    {A : Type 0} (k : String) (v : A) (m : String → Option A) (j : String) {x : Option A}
    → j ≢ k
    → m j ≡ x
    → put_at k v m j ≡ x
put_at-other k v m j other h = elim (Bool-cases (k =ₛ j)) [
  | inl same ↦ absurd (other (sym ((eq_iff k j).0 same)))
  | inr differs ↦ rw differs h
]

pub drop_at-none :
    {A : Type 0} (k : String) (m : String → Option A) (j : String)
    → (j ≢ k → m j ≡ none)
    → drop_at k m j ≡ none
drop_at-none k m j h = elim (Bool-cases (k =ₛ j)) [
  | inl same ↦ rw same refl
  | inr differs ↦ rw differs (h λ e. cc ((eq_iff k j).1 (sym e)))
]

pub drop_at-other :
    {A : Type 0} (k : String) (m : String → Option A) (j : String) → j ≢ k → drop_at k m j ≡ m j
drop_at-other k m j other = elim (Bool-cases (k =ₛ j)) [
  | inl same ↦ absurd (other (sym ((eq_iff k j).0 same)))
  | inr differs ↦ rw differs refl
]
