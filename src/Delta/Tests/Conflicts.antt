-- ===== src/Delta/Tests/Conflicts.antt =====
-- A delta for a store that has diverged, and an operation under the id of another record.
use hot_mem.Prelude.{◌≡◌, refl, ◌⊎◌, false, none, some, [], ◌∷◌, err}
use hot_mem.Json.{Fields, get}
use hot_mem.Delta.Store.{Store, get_memory, insert}
use hot_mem.Delta.Produce.{Op}
use hot_mem.Delta.Apply.{
  Progress, begin, id_reuse, conflicted, current_fingerprint, holder, apply_op, apply_on_connection,
}
use hot_mem.Delta.Guards.{apply_op_guarded}
use hot_mem.Connection.{clean}
use hot_mem.Delta.Accounting.{apply_delta_atomic}
use hot_mem.Delta.Mismatch.{apply_op_mismatched}
use hot_mem.Delta.Tests.{small, row, receiver, source_delta, program}

-- The receiver has another record under "c".
abbrev diverged : Store
diverged = record receiver { rows = row "a" "h1" ∷ row "b" "h2" ∷ row "c" "h6" ∷ [] }

conflict_test :
    (apply_on_connection small source_delta (clean diverged)).0
    ≡ err (
        conflicted (
          record {
            reason = id_reuse;
            record_id = "c";
            op_id = "upsert:c:n/h4";
            expected = none;
            actual = some "n/h6";
          }
          ∷ []))
unfolding program
conflict_test = refl

apply_delta_atomic_example :
    (apply_on_connection small source_delta (clean diverged)).1 ≡ clean diverged
apply_delta_atomic_example = apply_delta_atomic small source_delta diverged conflict_test

-- An operation for the unused id "y" that carries the record of "x".
abbrev misdirected : Op
misdirected = record {
  op_id = "op";
  record_id = "y";
  expected = none;
  content = small.of_row (row "x" "h9");
  resulting = "n/h9";
}

abbrev overwritten : Progress
overwritten = record (begin receiver.rows) {
  rows = row "a" "h1" ∷ row "b" "h2" ∷ row "x" "h9" ∷ [];
  applied = 1;
  embedding_reused = 1;
}

apply_op_test : apply_op small false misdirected (begin receiver.rows) ≡ some overwritten
unfolding program
apply_op_test = refl

apply_op_guarded_example :
    (overwritten.rows ≡ receiver.rows)
    ⊎ ((current_fingerprint small misdirected receiver.rows ≡ none)
        × (rec : Fields) × ((small.normalize misdirected.content ≡ some rec)
            × (small.validate rec ≡ [])
            × (holder small (small.to_row rec) misdirected receiver.rows ≡ none)
            × (overwritten.rows ≡ insert (small.to_row rec) receiver.rows)))
apply_op_guarded_example =
    apply_op_guarded small misdirected (begin receiver.rows) false apply_op_test

is_absent : get_memory "y" receiver.rows ≡ none
unfolding program
is_absent = refl

is_valid : small.validate misdirected.content ≡ []
unfolding program
is_valid = refl

is_free : holder small (small.to_row misdirected.content) misdirected receiver.rows ≡ none
unfolding program
is_free = refl

apply_op_mismatched_example :
    (u : Progress) × (apply_op small false misdirected (begin receiver.rows) ≡ some u)
    × (u.conflicts ≡ [])
    × (get_memory "x" u.rows ≡ some (row "x" "h9"))
unfolding get
apply_op_mismatched_example =
    apply_op_mismatched small false misdirected misdirected.content (begin receiver.rows) is_absent
      refl refl is_valid is_free
