-- ===== src/Delta/Produced.antt =====
-- `produce_delta` and then `apply_delta` on a clone of the base.
use mathlib.Core.List.{Memᴰ}
use mathlib.Core.Path.{subst}
use hot_mem.Prelude.{
  ◌+◌, String, ◌≡◌, ◌≢◌, refl, sym, ap, ◌∙◌, inl, inr, Bool, false, none, some, List, [], ◌∷◌,
  arith, ok, ◌=ₛ◌, eq_iff, Option-cases, Bool-cases, is_empty,
}
use hot_mem.Connection.{clean}
use hot_mem.Json.{Fields}
use hot_mem.Delta.Store.{Row, Store, get_memory}
use hot_mem.Delta.Codec.{Codec}
use hot_mem.Delta.Produce.{Diff, base_fingerprint, upsert, classify, diff}
use hot_mem.Delta.Apply.{
  Progress, begin, write, compare_and_swap, apply_ops, Verified, ApplyResult, apply_delta,
  apply_on_connection, committed_by, finish, commit, result_of,
}
use hot_mem.Delta.Roundtrip.{
  fingerprint_at, fingerprint_of, after, rewritten, IsReady, IsReady-tail, IsReady-after,
}
use hot_mem.Delta.Converge.{Run, diff-cons, settled, moved, write_row_lem}

compare_and_swap-changed :
    (empty : Bool) (e new : String)
    → (e =ₛ new) ≡ false
    → compare_and_swap empty (some e) (some e) new ≡ write
unfolding compare_and_swap
compare_and_swap-changed empty e new h = rw (h, (eq_iff e e).1 refl) refl

module _ (k : Codec) (empty : Bool) (base : List Fields) where
  IsReady-moved :
      (row : Row) (rest : List Row) (s : Progress)
      → IsReady k base (row ∷ rest) s.rows
      → IsReady k base rest (after k empty row s).rows
  IsReady-moved row rest s h =
      subst (IsReady k base rest)
        (sym (write_row_lem (rewritten k row) (k.status (k.of_row row)) s).0)
        (IsReady-after k base row rest s.rows h)

  converge : (rows : List Row) (s : Progress) → IsReady k base rows s.rows → Run k empty base rows s
  unfolding diff apply_ops classify compare_and_swap
  converge [] s h = (
    s,
    refl,
    record {
      applied = omega arith;
      skipped = refl;
      conflicts = refl;
      reached = λ row m. elim m [ ];
      others = λ key ne. refl;
    },
  )
  converge (row ∷ rest) s h =
      let later = λ (s' : Progress) (h' : IsReady k base rest s'.rows). converge rest s' h' in
      let d : Diff = diff k base rest in
      let cloned = h.cloned row (Memᴰ.head refl) in
      let law = h.stable row (Memᴰ.head refl) in
      elim (Option-cases (base_fingerprint k base row.id)) [
        | inl b ↦
            moved k empty base row rest s h none (classify k none row d) (rw (cloned, b) refl)
              (diff-cons k empty base row rest none law b) refl (omega arith)
              (later (after k empty row s) (IsReady-moved row rest s h))
        | inr (e, b) ↦ elim (Bool-cases (e =ₛ fingerprint_of k row)) [
          | inl same ↦
              settled k empty base row rest s h e b ((eq_iff e (fingerprint_of k row)).0 same)
                (diff-cons k empty base row rest (some e) law b ∙ rw same refl)
                (later s (IsReady-tail k base row rest s.rows h))
          | inr changed ↦
              moved k empty base row rest s h (some e)
                (record d { ops = upsert k (some e) row ∷ d.ops; changed = d.changed + 1 })
                (rw (cloned, b) (compare_and_swap-changed empty e (fingerprint_of k row) changed))
                (diff-cons k empty base row rest (some e) law b ∙ rw changed refl) refl
                (omega arith) (later (after k empty row s) (IsReady-moved row rest s h))
        ]
      ]

pub finish-clean :
    (v : Verified) (s : Store) (p : Progress)
    → p.conflicts ≡ []
    → finish v (clean s) (ok p) ≡ (ok (result_of v p), clean (commit v p s))
unfolding finish
finish-clean v s p h = rw h refl

-- If a store holds the base's fingerprint under the key of each source row, the source rows have
-- distinct keys, are valid and come back the same when they are written from their records, and none shares a unique-index entry with another key, then the
-- delta that is produced from the base and the source rows applies: every operation is applied and
-- none is skipped, the store then has the fingerprint of each source row under its key, and each
-- other key reads as before.
pub apply_delta-diff :
    (k : Codec) (base : List Fields) (rows : List Row) (v : Verified) (s : Store)
    → IsReady k base rows s.rows
    → v.ops ≡ (diff k base rows).ops
    → (r : ApplyResult) × (t : Store) × (apply_delta k v s ≡ (ok r, t))
      × (r.applied ≡ (diff k base rows).added + (diff k base rows).changed)
      × (r.skipped ≡ 0)
      × ((row : Row) → Memᴰ row rows → fingerprint_at k row.id t.rows ≡ some (fingerprint_of k row))
      × ((key : String)
          → ((row : Row) → Memᴰ row rows → row.id ≢ key)
          → get_memory key t.rows ≡ get_memory key s.rows)
unfolding apply_delta apply_on_connection commit
apply_delta-diff k base rows v s h same =
    let (p, run, y) = converge k (is_empty s.rows) base rows (begin s.rows) h in
    (
      result_of v p,
      commit v p s,
      ap committed_by (
          ap (λ ops. finish v (clean s) (apply_ops k (is_empty s.rows) ops (begin s.rows))) same
          ∙ ap (finish v (clean s)) run
          ∙ finish-clean v s p y.conflicts),
      omega (arith, y.applied),
      y.skipped,
      y.reached,
      y.others,
    )
