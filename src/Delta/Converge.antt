-- ===== src/Delta/Converge.antt =====
-- Applying a produced delta brings a clone of the base to the source's state.
use mathlib.Core.List.{Memᴰ}
use mathlib.Core.Path.{subst}
use hot_mem.Prelude.{
  ok, ◌+◌, String, ◌≡◌, ◌≢◌, refl, sym, ap, ◌∙◌, inl, inr, Bool, Option, some, List, ◌∷◌, arith,
}
use hot_mem.Prelude.Membership.{Memᴰ-cons}
use hot_mem.Json.{Fields}
use hot_mem.Delta.Store.{Row, get_memory, insert}
use hot_mem.Delta.Codec.{Codec, IsStable, EmbeddingStatus, reused, rebuilt, missing, failed}
use hot_mem.Delta.Produce.{Op, Diff, base_fingerprint, upsert, classify, diff}
use hot_mem.Delta.Apply.{
  Progress, write, compare_and_swap, write_row, apply_op, apply_ops, stored_fingerprint,
}
use hot_mem.Delta.Roundtrip.{
  fingerprint_at, fingerprint_of, rewritten, after, upsert-applies, IsReady, untouched,
  written_here, NoClash-rewritten,
}

-- The loop over the delta from `base` to `rows` runs to the end without a conflict: it applies
-- every operation, leaves each row's fingerprint under its key, and leaves all other keys alone.
pub record IsSynced (k : Codec) (base : List Fields) (rows : List Row) (s t : Progress)
    : Type 0 where
  pub applied : t.applied ≡ s.applied + ((diff k base rows).added + (diff k base rows).changed)
  pub skipped : t.skipped ≡ s.skipped
  pub conflicts : t.conflicts ≡ s.conflicts
  pub reached :
      (row : Row) → Memᴰ row rows → fingerprint_at k row.id t.rows ≡ some (fingerprint_of k row)
  pub others :
      (key : String)
      → ((row : Row) → Memᴰ row rows → row.id ≢ key)
      → get_memory key t.rows ≡ get_memory key s.rows

pub write_row_lem :
    (row : Row) (status : EmbeddingStatus) (s : Progress)
    → let t = write_row row status s in
      (t.rows ≡ insert row s.rows)
      × (t.applied ≡ s.applied + 1)
      × (t.skipped ≡ s.skipped)
      × (t.conflicts ≡ s.conflicts)
unfolding write_row
write_row_lem row reused s = (refl, refl, refl, refl)
write_row_lem row rebuilt s = (refl, refl, refl, refl)
write_row_lem row missing s = (refl, refl, refl, refl)
write_row_lem row failed s = (refl, refl, refl, refl)

pub apply_ops-cons :
    (k : Codec) (empty : Bool) (op : Op) (rest : List Op) (s u t : Progress)
    → apply_op k empty op s ≡ some u
    → apply_ops k empty rest u ≡ ok t
    → apply_ops k empty (op ∷ rest) s ≡ ok t
unfolding apply_ops
apply_ops-cons k empty op rest s u t e run = rw (e, apply_ops) run

module _ (k : Codec) (empty : Bool) (base : List Fields) where
  abbrev pub Run : List Row → Progress → Type 0
  Run rows s =
      (t : Progress) × (apply_ops k empty (diff k base rows).ops s ≡ ok t)
      × IsSynced k base rows s t

  pub diff-cons :
      (row : Row) (rest : List Row) (b : Option String)
      → IsStable k row
      → base_fingerprint k base row.id ≡ b
      → diff k base (row ∷ rest) ≡ classify k b row (diff k base rest)
  unfolding diff
  diff-cons row rest b law e =
      ap (λ o. classify k o row (diff k base rest)) (ap (base_fingerprint k base) law.read_id ∙ e)

  module _ (row : Row) (rest : List Row) (s : Progress)
      (h : IsReady k base (row ∷ rest) s.rows) where
    not_later : (other : Row) → Memᴰ other rest → other.id ≢ row.id
    not_later = h.distinct.0

    -- The row's fingerprint is the base's: there is no operation for it.
    pub settled :
        (e : String)
        → base_fingerprint k base row.id ≡ some e
        → e ≡ fingerprint_of k row
        → diff k base (row ∷ rest) ≡ diff k base rest
        → Run rest s
        → Run (row ∷ rest) s
    settled e b same d (t, run, y) = (
      t,
      ap (λ (f : Diff). apply_ops k empty f.ops s) d ∙ run,
      record {
        applied = y.applied ∙ ap (λ (f : Diff). s.applied + (f.added + f.changed)) (sym d);
        skipped = y.skipped;
        conflicts = y.conflicts;
        reached = λ r m. elim (Memᴰ-cons m) [
          | inl here ↦
              subst (λ (x : Row). fingerprint_at k x.id t.rows ≡ some (fingerprint_of k x))
                (sym here) first
          | inr there ↦ y.reached r there
        ];
        others = λ key ne. y.others key (λ r m. ne r (Memᴰ.tail m));
      },
    )
      where
        first : fingerprint_at k row.id t.rows ≡ some (fingerprint_of k row)
        first =
            ap (stored_fingerprint k) (y.others row.id not_later)
            ∙ h.cloned row (Memᴰ.head refl)
            ∙ b
            ∙ ap some same

    -- The row is new or has changed: it is written, and then the rest.
    pub moved :
        (expected : Option String) (d : Diff)
        → compare_and_swap empty (fingerprint_at k row.id s.rows) expected (fingerprint_of k row)
          ≡ write
        → diff k base (row ∷ rest) ≡ d
        → d.ops ≡ upsert k expected row ∷ (diff k base rest).ops
        → d.added + d.changed ≡ 1 + ((diff k base rest).added + (diff k base rest).changed)
        → Run rest (after k empty row s)
        → Run (row ∷ rest) s
    moved expected d cas e ops count (t, run, y) = (
      t,
      ap (λ (f : Diff). apply_ops k empty f.ops s) e
          ∙ ap (λ l. apply_ops k empty l s) ops
          ∙ apply_ops-cons k empty (upsert k expected row) _ s (after k empty row s) t step run,
      record {
        applied = omega (arith, y.applied, w.1, count, ap (λ (f : Diff). f.added + f.changed) e);
        skipped = y.skipped ∙ w.2;
        conflicts = y.conflicts ∙ w.3;
        reached = λ r m. elim (Memᴰ-cons m) [
          | inl here ↦
              subst (λ (x : Row). fingerprint_at k x.id t.rows ≡ some (fingerprint_of k x))
                (sym here) first
          | inr there ↦ y.reached r there
        ];
        others = λ key ne.
            y.others key (λ r m. ne r (Memᴰ.tail m))
            ∙ ap (get_memory key) w.0
            ∙ untouched k base row rest s.rows h key (ne row (Memᴰ.head refl));
      },
    )
      where
        w :
            let u = after k empty row s in
            (u.rows ≡ insert (rewritten k row) s.rows)
            × (u.applied ≡ s.applied + 1)
            × (u.skipped ≡ s.skipped)
            × (u.conflicts ≡ s.conflicts)
        w = write_row_lem (rewritten k row) (k.status (k.of_row row)) s

        step : apply_op k empty (upsert k expected row) s ≡ some (after k empty row s)
        step =
            upsert-applies k empty row s expected (h.stable row (Memᴰ.head refl))
              (h.valid row (Memᴰ.head refl))
              (NoClash-rewritten k row s.rows (h.stable row (Memᴰ.head refl))
                (h.clean row (Memᴰ.head refl)))
              cas

        first : fingerprint_at k row.id t.rows ≡ some (fingerprint_of k row)
        first =
            ap (stored_fingerprint k) (y.others row.id not_later ∙ ap (get_memory row.id) w.0)
            ∙ written_here k base row rest s.rows h
