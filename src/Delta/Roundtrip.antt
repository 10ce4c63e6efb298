-- ===== src/Delta/Roundtrip.antt =====
-- Applying what `produce_delta` emits to a clone of the base reaches the source's state.
use mathlib.Core.List.{Memᴰ}
use mathlib.Core.Path.{subst}
use hot_mem.Prelude.{
  String, ◌≡◌, ◌≢◌, refl, sym, ap, ◌∙◌, inl, inr, Bool, Option, none, some, List, [], ◌∷◌, eq_iff,
  Option-cases,
}
use hot_mem.Json.{Fields}
use hot_mem.Delta.Store.{Row, get_memory, find_by_namespace_and_hash, insert}
use hot_mem.Delta.Codec.{Codec, IsStable}
use hot_mem.Delta.Rows.{
  clashes, NoClash, Memᴰ-insert, get_memory-insert_self, get_memory-insert_ne,
  find_by_namespace_and_hash-clashes,
}
use hot_mem.Delta.Produce.{Op, base_fingerprint, upsert}
use hot_mem.Delta.Apply.{
  Progress, write, compare_and_swap, holder, write_row, write_record, current_fingerprint, apply_op,
  stored_fingerprint,
}

module _ (k : Codec) where
  -- The fingerprint that the table holds under a key.
  abbrev pub fingerprint_at : String → List Row → Option String
  fingerprint_at key rows = stored_fingerprint k (get_memory key rows)

  abbrev pub fingerprint_of : Row → String
  fingerprint_of row = k.fingerprint (k.of_row row)

  abbrev pub rewritten : Row → Row
  rewritten row = k.to_row (k.of_row row)

module _ (k : Codec) (empty : Bool) (op : Op) (rec : Fields) (s : Progress) where
  pub apply_op-write :
      compare_and_swap empty (current_fingerprint k op s.rows) op.expected op.resulting ≡ write
      → k.normalize op.content ≡ some rec
      → apply_op k empty op s ≡ some (write_record k rec op s)
  unfolding apply_op
  apply_op-write cas normal = rw (cas, normal, apply_op)

  pub write_record-row :
      k.validate rec ≡ []
      → holder k (k.to_row rec) op s.rows ≡ none
      → write_record k rec op s ≡ write_row (k.to_row rec) (k.status rec) s
  unfolding write_record
  write_record-row valid free = rw (valid, write_record) (rw (free, write_record))

-- What one operation for `row` does to the loop's variables.
module _ (k : Codec) (empty : Bool) (row : Row) (s : Progress) where
  abbrev pub after : Progress
  after = write_row (rewritten k row) (k.status (k.of_row row)) s

  no_holder :
      (op : Op)
      → op.record_id ≡ row.id
      → IsStable k row
      → NoClash (rewritten k row) s.rows
      → holder k (rewritten k row) op s.rows ≡ none
  no_holder op e law clean =
      elim (Option-cases (
        find_by_namespace_and_hash (rewritten k row).namespace (rewritten k row).content_hash
          s.rows)) [
            | inl h ↦ rw (h, holder)
            | inr (r, h) ↦
                let (at, c) = find_by_namespace_and_hash-clashes (rewritten k row) s.rows h in
                let same = clean r at c ∙ law.id ∙ sym e in
                rw (h, holder) (rw ((eq_iff r.id op.record_id).1 same))
          ]

  current_fingerprint-upsert :
      (expected : Option String)
      → IsStable k row
      → current_fingerprint k (upsert k expected row) s.rows ≡ fingerprint_at k row.id s.rows
  unfolding upsert
  current_fingerprint-upsert expected law = rw law.read_id refl

  pub upsert-applies :
      (expected : Option String)
      → IsStable k row
      → k.validate (k.of_row row) ≡ []
      → NoClash (rewritten k row) s.rows
      → compare_and_swap empty (fingerprint_at k row.id s.rows) expected (fingerprint_of k row)
        ≡ write
      → apply_op k empty (upsert k expected row) s ≡ some after
  unfolding upsert
  upsert-applies expected law valid clean cas =
      let op : Op = upsert k expected row in
      let cas' =
        subst (λ f. compare_and_swap empty f expected (fingerprint_of k row) ≡ write)
          (sym (current_fingerprint-upsert expected law)) cas in
      apply_op-write k empty op (k.of_row row) s cas' law.normalized
      ∙ ap some
          (write_record-row k empty op (k.of_row row) s valid (no_holder op law.read_id law clean))

abbrev pub Distinct : List Row → Type 0
Distinct [] = Unit
Distinct (row ∷ rest) = ((other : Row) → Memᴰ other rest → other.id ≢ row.id) × Distinct rest

-- The table is ready for the delta from `base` to `rows`: it holds the base's fingerprint under
-- each of their keys, none of them shares an index entry with another key of the table or of the
-- rows, and all of them are valid and stable.
pub record IsReady (k : Codec) (base : List Fields) (rows table : List Row) : Type 0 where
  pub cloned :
      (row : Row) → Memᴰ row rows → fingerprint_at k row.id table ≡ base_fingerprint k base row.id
  pub clean : (row : Row) → Memᴰ row rows → NoClash row table
  pub unique : (row : Row) → Memᴰ row rows → NoClash row rows
  pub distinct : Distinct rows
  pub valid : (row : Row) → Memᴰ row rows → k.validate (k.of_row row) ≡ []
  pub stable : (row : Row) → Memᴰ row rows → IsStable k row

module _ (k : Codec) where
  clashes-rewritten : (row r : Row) → IsStable k row → clashes (rewritten k row) r ≡ clashes row r
  clashes-rewritten row r law = rw (law.namespace, law.content_hash) refl

  pub NoClash-rewritten :
      (row : Row) (table : List Row)
      → IsStable k row
      → NoClash row table
      → NoClash (rewritten k row) table
  NoClash-rewritten row table law clean r at c =
      clean r at (sym (clashes-rewritten row r law) ∙ c) ∙ sym law.id

  clashes-rewritten_right :
      (row r : Row) → IsStable k r → clashes row (rewritten k r) ≡ clashes row r
  clashes-rewritten_right row r law = rw (law.namespace, law.content_hash) refl

  module _ (base : List Fields) (row : Row) (rest table : List Row)
      (h : IsReady k base (row ∷ rest) table) where
    law : IsStable k row
    law = h.stable row (Memᴰ.head refl)

    pub IsReady-tail : IsReady k base rest table
    IsReady-tail = record {
      cloned = λ r at. h.cloned r (Memᴰ.tail at);
      clean = λ r at. h.clean r (Memᴰ.tail at);
      unique = λ r at o m. h.unique r (Memᴰ.tail at) o (Memᴰ.tail m);
      distinct = h.distinct.1;
      valid = λ r at. h.valid r (Memᴰ.tail at);
      stable = λ r at. h.stable r (Memᴰ.tail at);
    }

    pub untouched :
        (key : String)
        → row.id ≢ key
        → get_memory key (insert (rewritten k row) table) ≡ get_memory key table
    untouched key ne =
        get_memory-insert_ne (rewritten k row) table key
          (NoClash-rewritten row table law (h.clean row (Memᴰ.head refl)))
          (λ e. ne (sym law.id ∙ e))

    pub IsReady-after : IsReady k base rest (insert (rewritten k row) table)
    IsReady-after = record {
      cloned = λ r at.
          ap (stored_fingerprint k) (untouched r.id (λ e. h.distinct.0 r at (sym e)))
          ∙ h.cloned r (Memᴰ.tail at);
      clean = λ r at o m c. elim (Memᴰ-insert (rewritten k row) table m) [
        | inl e ↦
            let c' = sym (clashes-rewritten_right r row law) ∙ sym (ap (clashes r) e) ∙ c in
            ap (λ (x : Row). x.id) e ∙ law.id ∙ h.unique r (Memᴰ.tail at) row (Memᴰ.head refl) c'
        | inr old ↦ h.clean r (Memᴰ.tail at) o old c
      ];
      unique = λ r at o m. h.unique r (Memᴰ.tail at) o (Memᴰ.tail m);
      distinct = h.distinct.1;
      valid = λ r at. h.valid r (Memᴰ.tail at);
      stable = λ r at. h.stable r (Memᴰ.tail at);
    }

    pub written_here :
        fingerprint_at k row.id (insert (rewritten k row) table) ≡ some (fingerprint_of k row)
    written_here =
        let found =
          subst (λ key. get_memory key (insert (rewritten k row) table) ≡ some (rewritten k row))
            law.id (get_memory-insert_self (rewritten k row) table) in
        ap (stored_fingerprint k) found ∙ ap some law.fingerprint
