-- ===== src/Delta/Accounting.antt =====
-- Every operation of a delta is applied, skipped or reported, and nothing is half committed.
use hot_mem.Prelude.{
  sym, err, Result, ok-injective, ℕ, suc, ◌+◌, ◌≡◌, refl, Bool, Option, none, some, List, [], ◌∷◌,
  ◌++◌, arith, length, ok, Option-cases, is_empty, Bool-cases, inl, inr, ap,
}
use mathlib.Core.Path.{subst}
use hot_mem.Connection.{clean}
use hot_mem.Json.{Fields}
use hot_mem.Delta.Store.{Store, Row}
use hot_mem.Delta.Codec.{Codec, EmbeddingStatus, reused, rebuilt, missing, failed}
use hot_mem.Delta.Produce.{Op}
use hot_mem.Delta.Apply.{
  Progress, begin, Reason, state_divergence, Verdict, write, skip, refuse, Verified, ApplyResult,
  conflict, write_row, write_record, holder, current_fingerprint, compare_and_swap, apply_op,
  apply_ops, result_of, commit, finish, apply_delta, apply_on_connection, committed_by, Failure,
}

-- After `n` operations.
pub record IsTallied (n : ℕ) (s : Progress) : Type 0 where
  pub operations : s.applied + s.skipped + length s.conflicts ≡ n
  pub embeddings :
      s.embedding_reused + s.embedding_rebuilt + s.embedding_missing + s.embedding_failed
      ≡ s.applied

length-snoc {ℓ} : {A : Type ℓ} (xs : List A) (x : A) → length (xs ++ x ∷ []) ≡ suc (length xs)
length-snoc [] x = refl
length-snoc (y ∷ xs) x = ap suc (length-snoc xs x)

module _ {n : ℕ} {s : Progress} (h : IsTallied n s) where
  conflict-IsTallied :
      (reason : Reason) (op : Op) (expected actual : Option _)
      → IsTallied (suc n) (conflict reason op expected actual s)
  unfolding conflict
  conflict-IsTallied reason op expected actual = record {
    operations = omega (arith, h, length-snoc {0} s.conflicts _);
    embeddings = h.embeddings;
  }

  write_row-IsTallied :
      (row : Row) (status : EmbeddingStatus) → IsTallied (suc n) (write_row row status s)
  unfolding write_row
  write_row-IsTallied row reused = omega arith
  write_row-IsTallied row rebuilt = omega arith
  write_row-IsTallied row missing = omega arith
  write_row-IsTallied row failed = omega arith

module _ (k : Codec) where
  write_record-IsTallied :
      {n : ℕ} {s : Progress} (rec : Fields) (op : Op)
      → IsTallied n s
      → IsTallied (suc n) (write_record k rec op s)
  unfolding write_record
  write_record-IsTallied {n} {s} rec op h = elim (Bool-cases (is_empty (k.validate rec))) [
    | inr bad ↦ rw bad (conflict-IsTallied h _ op none _)
    | inl good ↦ rw good (written (holder k (k.to_row rec) op s.rows))
  ]
    where
      written :
          (o : Option Row)
          → IsTallied (suc n) (elim o [
            | none ↦ write_row (k.to_row rec) (k.status rec) s
            | some r ↦ conflict state_divergence op op.expected (some r.id) s
          ])
      written none = write_row-IsTallied h (k.to_row rec) (k.status rec)
      written (some r) = conflict-IsTallied h state_divergence op op.expected (some r.id)

  apply_op-IsTallied :
      (empty : Bool) (op : Op) {n : ℕ} {s s' : Progress}
      → IsTallied n s
      → apply_op k empty op s ≡ some s'
      → IsTallied (suc n) s'
  unfolding apply_op
  apply_op-IsTallied empty op {n} {s} {s'} h e =
      by_verdict (compare_and_swap empty (current_fingerprint k op s.rows) op.expected op.resulting)
        e
    where
      by_record :
          (o : Option Fields)
          → (elim o [ none ↦ none | some rec ↦ some (write_record k rec op s) ]) ≡ some s'
          → IsTallied (suc n) s'
      by_record none e = cc
      by_record (some rec) e =
          let same : write_record k rec op s ≡ s' = cc in
          rw same at (write_record-IsTallied rec op h)

      by_verdict :
          (v : Verdict)
          → (elim v [
            | skip ↦ some (record s { skipped = s.skipped + 1 })
            | refuse reason ↦
                some (conflict reason op op.expected (current_fingerprint k op s.rows) s)
            | write ↦ elim (k.normalize op.content) [
              | none ↦ none
              | some rec ↦ some (write_record k rec op s)
            ]
          ])
            ≡ some s'
          → IsTallied (suc n) s'
      by_verdict write e = by_record (k.normalize op.content) e
      by_verdict skip e =
          let same : record s { skipped = s.skipped + 1 } ≡ s' = cc in
          subst (IsTallied (suc n)) same (omega arith)
      by_verdict (refuse reason) e =
          let same : conflict reason op op.expected (current_fingerprint k op s.rows) s ≡ s' = cc in
          subst (IsTallied (suc n)) same
            (conflict-IsTallied h reason op op.expected (current_fingerprint k op s.rows))

  apply_ops-IsTallied :
      (empty : Bool) (ops : List Op) {n : ℕ} {s s' : Progress}
      → IsTallied n s
      → apply_ops k empty ops s ≡ ok s'
      → IsTallied (n + length ops) s'
  unfolding apply_ops
  apply_ops-IsTallied empty [] {n} {s} {s'} h e =
      let same : s ≡ s' = sym (ok-injective e) in subst (IsTallied (n + 0)) same (omega arith)
  apply_ops-IsTallied empty (op ∷ rest) {n} {s} h e = elim (Option-cases (apply_op k empty op s)) [
    | inl stuck ↦ let e' = rw (stuck, apply_ops) at e in cc e'
    | inr (t, done) ↦
        let tallied =
          apply_ops-IsTallied empty rest (apply_op-IsTallied empty op h done)
            (rw (done, apply_ops) at e) in
        omega (arith, tallied)
  ]

begin-IsTallied : (rows : List Row) → IsTallied 0 (begin rows)
begin-IsTallied rows = omega arith

finish-ok :
    (v : Verified) (s : Store) (o : Result Progress Progress) {r : ApplyResult} {t : Store}
    → committed_by (finish v (clean s) o) ≡ (ok r, t)
    → (p : Progress) × (o ≡ ok p)
      × (length p.conflicts ≡ 0)
      × (r ≡ result_of v p)
      × (t ≡ commit v p s)
unfolding finish
finish-ok v s (err p) h = absurd (ground arith)
finish-ok v s (ok p) h = (p, refl, ground arith, ground arith, ground arith)

finish-err :
    (v : Verified) (s : Store) (o : Result Progress Progress) {f : Failure}
    → (finish v (clean s) o).0 ≡ err f
    → (finish v (clean s) o).1 ≡ clean s
unfolding finish
finish-err v s (err p) h = refl
finish-err v s (ok p) h = elim (Bool-cases (is_empty p.conflicts)) [
  | inl none_left ↦ let h' = rw none_left at h in cc h'
  | inr some_left ↦ rw some_left refl
]

-- A delta that fails on a connection without open changes, by a conflict after records have been
-- written or by an exception between them, leaves the connection without open changes and the rows,
-- the checkpoints and the receipts that are committed as they were.
pub apply_delta_atomic :
    (k : Codec) (v : Verified) (s : Store) {f : Failure}
    → (apply_on_connection k v (clean s)).0 ≡ err f
    → (apply_on_connection k v (clean s)).1 ≡ clean s
unfolding apply_on_connection
apply_delta_atomic k v s h = finish-err v s (apply_ops k (is_empty s.rows) v.ops (begin s.rows)) h

-- A delta that is applied accounts for each of its operations, as applied or as skipped, and for
-- the embedding of each applied one; one checkpoint and one receipt with these counts are added.
pub apply_delta_accounts :
    (k : Codec) (v : Verified) (s : Store) {r : ApplyResult} {t : Store}
    → apply_delta k v s ≡ (ok r, t)
    → (r.applied + r.skipped ≡ length v.ops)
      × (r.embedding_reused + r.embedding_rebuilt + r.embedding_missing + r.embedding_failed
          ≡ r.applied)
      × (t.checkpoints
          ≡ s.checkpoints
            ++ record {
              base_logical_id = v.base_logical_id;
              delta_digest = v.delta_digest;
              applied_ops = r.applied;
              resulting_state_fingerprint = v.resulting_state_fingerprint;
            }
              ∷ [])
      × (t.receipts
          ≡ s.receipts
            ++ record {
              base_logical_id = v.base_logical_id;
              delta_digest = v.delta_digest;
              applied = r.applied;
              skipped = r.skipped;
              resulting_state_fingerprint = v.resulting_state_fingerprint;
            }
              ∷ [])
unfolding apply_delta apply_on_connection commit
apply_delta_accounts k v s h =
    let o = apply_ops k (is_empty s.rows) v.ops (begin s.rows) in
    let (p, e, clean, er, et) = finish-ok v s o h in
    let tallied = apply_ops-IsTallied k (is_empty s.rows) v.ops (begin-IsTallied s.rows) e in
    rw (er, et) (omega (arith, clean, tallied), tallied.embeddings, refl, refl)
