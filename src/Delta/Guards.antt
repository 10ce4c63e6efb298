-- ===== src/Delta/Guards.antt =====
-- A record is written only over the pre-image that the operation names.
use mathlib.Core.Path.{subst}
use hot_mem.Prelude.{
  ◌+◌, String, ◌≡◌, refl, sym, ap, ◌∙◌, ◌⊎◌, inl, inr, Bool, true, Option, none, some, List, [],
  ◌∷◌, arith, ◌=ₛ◌, eq_iff, Bool-cases, is_empty,
}
use hot_mem.Json.{Fields}
use hot_mem.Delta.Store.{Row, insert}
use hot_mem.Delta.Codec.{Codec}
use hot_mem.Delta.Produce.{Op}
use hot_mem.Delta.Apply.{
  Progress, state_divergence, Verdict, write, skip, refuse, conflict, write_row, write_record,
  holder, current_fingerprint, compare_and_swap, apply_op,
}
use hot_mem.Delta.Converge.{write_row_lem}

compare_and_swap-write :
    (empty : Bool) (current expected : Option String) (new : String)
    → compare_and_swap empty current expected new ≡ write
    → current ≡ expected
unfolding compare_and_swap
compare_and_swap-write empty none none new h = refl
compare_and_swap-write empty none (some e) new h = cc
compare_and_swap-write empty (some c) none new h = ground arith
compare_and_swap-write empty (some c) (some e) new h = elim (Bool-cases (c =ₛ new)) [
  | inl same ↦ let h' = rw same at h in cc h'
  | inr new ↦ elim (Bool-cases (c =ₛ e)) [
    | inl same ↦ ap some ((eq_iff c e).0 same)
    | inr changed ↦ let h' = rw (new, changed) at h in cc h'
  ]
]

module _ (k : Codec) (op : Op) (s : Progress) where
  -- What a write comes from and leads to.
  abbrev Written : Fields → List Row → Type 0
  Written rec rows =
      (k.normalize op.content ≡ some rec)
      × (k.validate rec ≡ [])
      × (holder k (k.to_row rec) op s.rows ≡ none)
      × (rows ≡ insert (k.to_row rec) s.rows)

  is_empty-eq-true : {A : Type 0} (xs : List A) → is_empty xs ≡ true → xs ≡ []
  is_empty-eq-true [] h = refl
  is_empty-eq-true (x ∷ xs) h = cc

  write_record-guarded :
      (rec : Fields)
      → k.normalize op.content ≡ some rec
      → ((write_record k rec op s).rows ≡ s.rows) ⊎ Written rec (write_record k rec op s).rows
  unfolding write_record conflict
  write_record-guarded rec normal = elim (Bool-cases (is_empty (k.validate rec))) [
    | inr bad ↦ rw bad (inl refl)
    | inl good ↦
        rw good (
          written (holder k (k.to_row rec) op s.rows) refl (is_empty-eq-true (k.validate rec) good))
  ]
    where
      written :
          (o : Option Row)
          → holder k (k.to_row rec) op s.rows ≡ o
          → k.validate rec ≡ []
          → let u : Progress = (elim o [
            | none ↦ write_row (k.to_row rec) (k.status rec) s
            | some r ↦ conflict state_divergence op op.expected (some r.id) s
          ]) in
            (u.rows ≡ s.rows) ⊎ Written rec u.rows
      written none free valid =
          inr (normal, valid, free, (write_row_lem (k.to_row rec) (k.status rec) s).0)
      written (some r) held valid = inl refl

  -- An operation that the loop runs either leaves every row as it was, or the record of its id has
  -- the expected fingerprint (or is absent where none is expected), its content is a valid record
  -- that no row of another id holds, and the rows are those after writing that record.
  pub apply_op_guarded :
      (empty : Bool) {u : Progress}
      → apply_op k empty op s ≡ some u
      → (u.rows ≡ s.rows)
        ⊎ ((current_fingerprint k op s.rows ≡ op.expected) × (rec : Fields) × Written rec u.rows)
  unfolding apply_op conflict
  apply_op_guarded empty {u} h =
      by_verdict (compare_and_swap empty (current_fingerprint k op s.rows) op.expected op.resulting)
        refl h
    where
      Goal : Type 0
      Goal =
          (u.rows ≡ s.rows)
          ⊎ ((current_fingerprint k op s.rows ≡ op.expected) × (rec : Fields) × Written rec u.rows)

      by_record :
          (o : Option Fields)
          → k.normalize op.content ≡ o
          → current_fingerprint k op s.rows ≡ op.expected
          → (elim o [ none ↦ none | some rec ↦ some (write_record k rec op s) ]) ≡ some u
          → Goal
      by_record none normal pre h = cc h
      by_record (some rec) normal pre h =
          let same : write_record k rec op s ≡ u = cc in
          elim (write_record-guarded rec normal) [
            | inl kept ↦ inl (sym (ap (λ (p : Progress). p.rows) same) ∙ kept)
            | inr w ↦ inr (pre, rec, subst (λ (p : Progress). Written rec p.rows) same w)
          ]

      by_verdict :
          (v : Verdict)
          → compare_and_swap empty (current_fingerprint k op s.rows) op.expected op.resulting ≡ v
          → (elim v [
            | skip ↦ some (record s { skipped = s.skipped + 1 })
            | refuse reason ↦
                some (conflict reason op op.expected (current_fingerprint k op s.rows) s)
            | write ↦ elim (k.normalize op.content) [
              | none ↦ none
              | some rec ↦ some (write_record k rec op s)
            ]
          ])
            ≡ some u
          → Goal
      by_verdict write cas h =
          by_record (k.normalize op.content) refl
            (compare_and_swap-write empty (current_fingerprint k op s.rows) op.expected op.resulting
              cas)
            h
      by_verdict skip cas h =
          let same : record s { skipped = s.skipped + 1 } ≡ u = cc in
          inl (sym (ap (λ (p : Progress). p.rows) same))
      by_verdict (refuse reason) cas h =
          let same : conflict reason op op.expected (current_fingerprint k op s.rows) s ≡ u = cc in
          inl (sym (ap (λ (p : Progress). p.rows) same))
