-- ===== src/Delta/Rows.antt =====
-- What an `INSERT OR REPLACE` does to the rows that are looked up afterwards.
use mathlib.Core.List.{Memᴰ}
use hot_mem.Prelude.{
  String, ◌≡◌, ◌≢◌, refl, sym, ◌∙◌, ◌⊎◌, inl, inr, Bool, true, false, ◌&&◌, not, none, some, List,
  [], ◌∷◌, ◌++◌, arith, ◌=ₛ◌, eq_iff, keep, Bool-cases, if◌then◌else◌,
}
use hot_mem.Prelude.Strings.{is_blank, eq-false_of_ne}
use hot_mem.Prelude.Membership.{or-eq-true, Memᴰ-snoc, Memᴰ-keep}
use hot_mem.Delta.Store.{
  Row, get_memory, same_hash, find_hash, find_by_namespace_and_hash, displaces, insert,
}

-- The two rows share an entry of the unique index.
abbrev pub clashes : Row → Row → Bool
clashes new r = not (is_blank new.content_hash) && same_hash new.namespace new.content_hash r

-- Among the rows, only one with the same key shares the entry of the new row.
abbrev pub NoClash : Row → List Row → Type 0
NoClash new rows = (r : Row) → Memᴰ r rows → clashes new r ≡ true → r.id ≡ new.id

get_memory-append-none :
    (key : String) (xs : List Row) (new : Row)
    → get_memory key (xs ++ new ∷ []) ≡ (elim (get_memory key xs) [
      | some r ↦ some r
      | none ↦ if new.id =ₛ key then some new else none
    ])
unfolding get_memory
get_memory-append-none key [] new = refl
get_memory-append-none key (x ∷ xs) new = ground (arith, get_memory-append-none key xs new)

-- Rows that are kept or do not have the key make no difference.
get_memory-keep :
    (key : String) (p : Row → Bool) (rows : List Row)
    → ((r : Row) → Memᴰ r rows → p r ≡ false → r.id ≢ key)
    → get_memory key (keep p rows) ≡ get_memory key rows
unfolding get_memory
get_memory-keep key p [] h = refl
get_memory-keep key p (x ∷ xs) h =
    let ih = get_memory-keep key p xs (λ r at. h r (Memᴰ.tail at)) in
    elim (Bool-cases (p x)) [
      | inl e ↦ rw (e, ih)
      | inr e ↦ let ne = eq-false_of_ne x.id key (h x (Memᴰ.head refl) e) in rw (e, ne) ih
    ]

get_memory-keep-none :
    (key : String) (p : Row → Bool) (rows : List Row)
    → ((r : Row) → r.id ≡ key → p r ≡ false)
    → get_memory key (keep p rows) ≡ none
unfolding get_memory
get_memory-keep-none key p [] h = refl
get_memory-keep-none key p (x ∷ xs) h =
    let ih = get_memory-keep-none key p xs h in
    elim (Bool-cases (p x)) [
      | inl e ↦ let ne = eq-false_of_ne x.id key (λ same. cc (h x same, e)) in rw (e, ne) ih
      | inr e ↦ rw e ih
    ]

displaced :
    (new : Row) (rows : List Row)
    → NoClash new rows
    → (r : Row) → Memᴰ r rows
    → not (displaces new r) ≡ false
    → r.id ≡ new.id
displaced new rows clean r at d =
    elim (or-eq-true (r.id =ₛ new.id) (clashes new r) (ground arith)) [
      | inl e ↦ (eq_iff r.id new.id).0 e
      | inr e ↦ clean r at e
    ]

-- After a write, the key reads the new row.
pub get_memory-insert_self :
    (new : Row) (rows : List Row) → get_memory new.id (insert new rows) ≡ some new
unfolding insert
get_memory-insert_self new rows =
    let gone =
      get_memory-keep-none new.id (λ r. not (displaces new r)) rows
        (λ r e. ground (arith, (eq_iff r.id new.id).1 e)) in
    rw (get_memory-append-none, gone) (rw (eq_iff new.id new.id).1 refl)

-- A write without a clash leaves every other key as it was.
pub get_memory-insert_ne :
    (new : Row) (rows : List Row) (key : String)
    → NoClash new rows
    → new.id ≢ key
    → get_memory key (insert new rows) ≡ get_memory key rows
unfolding insert
get_memory-insert_ne new rows key clean ne =
    let kept =
      get_memory-keep key (λ r. not (displaces new r)) rows
        (λ r at d same. ne (sym (displaced new rows clean r at d) ∙ same)) in
    rw (get_memory-append-none, kept) (ground (arith, eq-false_of_ne new.id key ne))

find_hash-some :
    (ns hash : String) (rows : List Row) {r : Row}
    → find_hash ns hash rows ≡ some r
    → Memᴰ r rows × (same_hash ns hash r ≡ true)
find_hash-some ns hash [] h = cc
find_hash-some ns hash (x ∷ xs) {r} h = elim (Bool-cases (same_hash ns hash x)) [
  | inl e ↦ let same : r ≡ x = ground arith in (Memᴰ.head same, rw same e)
  | inr e ↦ let (at, k) = find_hash-some ns hash xs (ground arith) in (Memᴰ.tail at, k)
]

-- A row that the duplicate test finds clashes.
pub find_by_namespace_and_hash-clashes :
    (new : Row) (rows : List Row) {r : Row}
    → find_by_namespace_and_hash new.namespace new.content_hash rows ≡ some r
    → Memᴰ r rows × (clashes new r ≡ true)
unfolding find_by_namespace_and_hash
find_by_namespace_and_hash-clashes new rows h = elim (Bool-cases (is_blank new.content_hash)) [
  | inl blank ↦ let k = rw blank at h in cc k
  | inr hashed ↦
      let (at, k) = find_hash-some new.namespace new.content_hash rows (rw hashed at h) in
      (at, rw (hashed, k))
]

-- A row of the table after a write is the new row or was there before.
pub Memᴰ-insert :
    (new : Row) (rows : List Row) {r : Row} → Memᴰ r (insert new rows) → (r ≡ new) ⊎ Memᴰ r rows
unfolding insert
Memᴰ-insert new rows m = elim (Memᴰ-snoc (keep (λ r. not (displaces new r)) rows) new m) [
  | inl e ↦ inl e
  | inr at ↦ inr (Memᴰ-keep (λ r. not (displaces new r)) rows at).0
]
