-- ===== src/Delta/Replay.antt =====
-- Applying a delta again changes no row.
use mathlib.Core.List.{Memᴰ}
use mathlib.Core.Path.{subst}
use hot_mem.Prelude.{
  ◌+◌, String, ◌≡◌, refl, sym, ap, ◌∙◌, ◌⊎◌, inl, inr, Bool, Option, none, some, List, [], ◌∷◌,
  arith, length, ok, ◌=ₛ◌, eq_iff, Bool-cases, is_empty,
}
use hot_mem.Prelude.Membership.{Memᴰ-cons}
use hot_mem.Connection.{clean}
use hot_mem.Json.{Fields}
use hot_mem.Delta.Store.{Row, Store}
use hot_mem.Delta.Codec.{Codec, IsStable, id_of}
use hot_mem.Delta.Produce.{Op, Diff, base_fingerprint, upsert, classify, diff}
use hot_mem.Delta.Apply.{
  Progress, begin, skip, compare_and_swap, current_fingerprint, apply_op, apply_ops, Verified,
  ApplyResult, apply_delta, apply_on_connection, committed_by, commit, finish, result_of,
}
use hot_mem.Delta.Roundtrip.{fingerprint_at, fingerprint_of, IsReady}
use hot_mem.Delta.Converge.{apply_ops-cons}
use hot_mem.Delta.Produced.{finish-clean, apply_delta-diff}

-- The store already has the state that each operation leads to.
abbrev pub HasArrived : Codec → List Op → List Row → Type 0
HasArrived k ops rows = (op : Op) → Memᴰ op ops → current_fingerprint k op rows ≡ some op.resulting

compare_and_swap-arrived :
    (empty : Bool) (e : Option String) (new : String)
    → compare_and_swap empty (some new) e new ≡ skip
unfolding compare_and_swap
compare_and_swap-arrived empty none new = rw (eq_iff new new).1 refl
compare_and_swap-arrived empty (some e) new = rw (eq_iff new new).1 refl

module _ (k : Codec) where
  apply_op-arrived :
      (empty : Bool) (op : Op) (s : Progress)
      → current_fingerprint k op s.rows ≡ some op.resulting
      → apply_op k empty op s ≡ some (record s { skipped = s.skipped + 1 })
  unfolding apply_op
  apply_op-arrived empty op s h =
      let cas : compare_and_swap empty (current_fingerprint k op s.rows) op.expected op.resulting
          ≡ skip =
        ap (λ c. compare_and_swap empty c op.expected op.resulting) h
        ∙ compare_and_swap-arrived empty op.expected op.resulting in
      rw (cas, apply_op) refl

  apply_ops-arrived :
      (empty : Bool) (ops : List Op) (s : Progress)
      → HasArrived k ops s.rows
      → (t : Progress) × (apply_ops k empty ops s ≡ ok t)
        × (t.rows ≡ s.rows)
        × (t.applied ≡ s.applied)
        × (t.skipped ≡ s.skipped + length ops)
        × (t.conflicts ≡ s.conflicts)
  unfolding apply_ops
  apply_ops-arrived empty [] s h = (s, refl, refl, refl, omega arith, refl)
  apply_ops-arrived empty (op ∷ rest) s h =
      let u : Progress = record s { skipped = s.skipped + 1 } in
      let (t, run, rows, applied, skipped, conflicts) =
        apply_ops-arrived empty rest u (λ o at. h o (Memᴰ.tail at)) in
      (
        t,
        apply_ops-cons k empty op rest s u t (apply_op-arrived empty op s (h op (Memᴰ.head refl)))
            run,
        rows,
        applied,
        omega (arith, skipped),
        conflicts,
      )

  -- If the store already holds the resulting fingerprint of every operation, then the delta
  -- applies: it applies none of them, skips them all, and leaves every row as it was.
  pub apply_delta-arrived :
      (v : Verified) (s : Store)
      → HasArrived k v.ops s.rows
      → (r : ApplyResult) × (t : Store) × (apply_delta k v s ≡ (ok r, t))
        × (r.applied ≡ 0)
        × (r.skipped ≡ length v.ops)
        × (t.rows ≡ s.rows)
  unfolding apply_delta apply_on_connection commit
  apply_delta-arrived v s h =
      let (p, run, rows, applied, skipped, conflicts) =
        apply_ops-arrived (is_empty s.rows) v.ops (begin s.rows) h in
      (
        result_of v p,
        commit v p s,
        ap committed_by (ap (finish v (clean s)) run ∙ finish-clean v s p conflicts),
        applied,
        omega (arith, skipped),
        rows,
      )

module _ (k : Codec) (base : List Fields) where
  -- Each operation of a produced delta is the upsert of one of the rows.
  abbrev FromRow : List Row → Op → Type 0
  FromRow rows op =
      (row : Row) × Memᴰ row rows × (op.record_id ≡ row.id) × (op.resulting ≡ fingerprint_of k row)

  classify-FromRow :
      (b : Option String) (row : Row) (d : Diff) {op : Op}
      → IsStable k row
      → Memᴰ op (classify k b row d).ops
      → ((op.record_id ≡ row.id) × (op.resulting ≡ fingerprint_of k row)) ⊎ Memᴰ op d.ops
  unfolding classify upsert
  classify-FromRow none row d law m = elim (Memᴰ-cons m) [
    | inl e ↦ inl (ap (λ (o : Op). o.record_id) e ∙ law.read_id, ap (λ (o : Op). o.resulting) e)
    | inr at ↦ inr at
  ]
  classify-FromRow (some b) row d law m = elim (Bool-cases (b =ₛ fingerprint_of k row)) [
    | inl same ↦ inr (rw same at m)
    | inr changed ↦ elim (Memᴰ-cons (rw changed at m)) [
      | inl e ↦ inl (ap (λ (o : Op). o.record_id) e ∙ law.read_id, ap (λ (o : Op). o.resulting) e)
      | inr at ↦ inr at
    ]
  ]

  diff-FromRow :
      (rows : List Row) {op : Op}
      → ((row : Row) → Memᴰ row rows → IsStable k row)
      → Memᴰ op (diff k base rows).ops
      → FromRow rows op
  unfolding diff
  diff-FromRow [] stable m = elim m [ ]
  diff-FromRow (row ∷ rest) stable m =
      elim (classify-FromRow (base_fingerprint k base (id_of (k.of_row row))) row (diff k base rest)
        (stable row (Memᴰ.head refl)) m) [
          | inl (id, new) ↦ (row, Memᴰ.head refl, id, new)
          | inr later ↦
              let (r, at, id, new) = diff-FromRow rest (λ r at. stable r (Memᴰ.tail at)) later in
              (r, Memᴰ.tail at, id, new)
        ]

  -- If a delta that is produced from the base and the source rows has been applied to a store that
  -- was ready for it (`IsReady`: it held the base's fingerprint under the keys of the source rows, which
  -- are distinct, valid, unchanged by writing them from their records, and without clashes), then applying it a second time succeeds, applies nothing, skips every
  -- operation and changes no row.
  pub apply_delta-twice :
      (rows : List Row) (v : Verified) (s : Store) {r : ApplyResult} {t : Store}
      → IsReady k base rows s.rows
      → v.ops ≡ (diff k base rows).ops
      → apply_delta k v s ≡ (ok r, t)
      → (r' : ApplyResult) × (t' : Store) × (apply_delta k v t ≡ (ok r', t'))
        × (r'.applied ≡ 0)
        × (r'.skipped ≡ length v.ops)
        × (t'.rows ≡ t.rows)
  apply_delta-twice rows v s {r} {t} h same run =
      let (r0, t0, run0, applied, skipped, reached, others) =
        apply_delta-diff k base rows v s h same in
      let arrived : t0 ≡ t = cc in
      apply_delta-arrived k v t (λ op at.
        let (row, m, id, new) = diff-FromRow rows h.stable (subst (Memᴰ op) same at) in
        ap (λ key. fingerprint_at k key t.rows) id
        ∙ subst (λ (x : Store). fingerprint_at k row.id x.rows ≡ some (fingerprint_of k row))
            arrived (reached row m)
        ∙ ap some (sym new))
