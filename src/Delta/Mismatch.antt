-- ===== src/Delta/Mismatch.antt =====
-- An operation whose record has another id than the operation.
use hot_mem.Prelude.{◌≡◌, refl, ap, ◌∙◌, Bool, none, some, []}
use hot_mem.Json.{Fields}
use hot_mem.Delta.Store.{get_memory}
use hot_mem.Delta.Codec.{Codec}
use hot_mem.Delta.Rows.{get_memory-insert_self}
use hot_mem.Delta.Produce.{Op}
use hot_mem.Delta.Apply.{
  Progress, write, compare_and_swap, holder, current_fingerprint, write_row, apply_op,
}
use hot_mem.Delta.Roundtrip.{apply_op-write, write_record-row}
use hot_mem.Delta.Converge.{write_row_lem}

module _ (k : Codec) (empty : Bool) (op : Op) (rec : Fields) (s : Progress) where
  absent-write :
      get_memory op.record_id s.rows ≡ none
      → op.expected ≡ none
      → compare_and_swap empty (current_fingerprint k op s.rows) op.expected op.resulting ≡ write
  unfolding compare_and_swap
  absent-write absent new = rw (absent, new) refl

  -- If no row has the operation's record id, no pre-image is expected, and the content is a valid
  -- record that no row of another id holds, then the operation is applied without a conflict, and
  -- the row that is stored under the id of the content's row is that row, whatever was stored there.
  pub apply_op_mismatched :
      get_memory op.record_id s.rows ≡ none
      → op.expected ≡ none
      → k.normalize op.content ≡ some rec
      → k.validate rec ≡ []
      → holder k (k.to_row rec) op s.rows ≡ none
      → (u : Progress) × (apply_op k empty op s ≡ some u)
        × (u.conflicts ≡ s.conflicts)
        × (get_memory (k.to_row rec).id u.rows ≡ some (k.to_row rec))
  apply_op_mismatched absent new normal valid free =
      let w = write_row_lem (k.to_row rec) (k.status rec) s in
      (
        write_row (k.to_row rec) (k.status rec) s,
        apply_op-write k empty op rec s (absent-write absent new) normal
            ∙ ap some (write_record-row k empty op rec s valid free),
        w.3,
        ap (get_memory (k.to_row rec).id) w.0 ∙ get_memory-insert_self (k.to_row rec) s.rows,
      )
