-- ===== src/Delta/Apply.antt =====
-- `apply_delta` on the operations of a verified delta.
use Prim.Native.String.{◌++◌ as ◌+++◌}
use hot_mem.Prelude.{
  ℕ, ◌+◌, String, Bool, not, Option, none, some, List, [], ◌∷◌, ◌++◌, if◌then◌else◌, is_empty, ◌=ₛ◌,
  Result, ok, err,
}
use hot_mem.Connection.{Connection, clean, execute, db_commit, db_rollback}
use hot_mem.Json.{Fields}
use hot_mem.Delta.Store.{Row, Store, get_memory, find_by_namespace_and_hash, insert}
use hot_mem.Delta.Codec.{Codec, EmbeddingStatus, reused, rebuilt, missing, failed}
use hot_mem.Delta.Produce.{Op}

pub data Reason : Type 0 where
  base_missing state_divergence id_reuse invalid_record : Reason

pub record Conflict : Type 0 where
  pub reason : Reason
  pub record_id : String
  pub op_id : String
  pub expected : Option String
  pub actual : Option String

-- The local variables of the loop; `rows` is the uncommitted table.
pub record Progress : Type 0 where
  pub rows : List Row
  pub conflicts : List Conflict
  pub applied : ℕ
  pub skipped : ℕ
  pub embedding_reused : ℕ
  pub embedding_rebuilt : ℕ
  pub embedding_missing : ℕ
  pub embedding_failed : ℕ

abbrev pub begin : List Row → Progress
begin rows = record {
  rows = rows;
  conflicts = [];
  applied = 0;
  skipped = 0;
  embedding_reused = 0;
  embedding_rebuilt = 0;
  embedding_missing = 0;
  embedding_failed = 0;
}

-- `"; ".join(issues)`
abbrev pub join_issues : List String → String
join_issues [] = ""
join_issues (issue ∷ []) = issue
join_issues (issue ∷ other ∷ rest) = issue +++ "; " +++ join_issues (other ∷ rest)

-- `conflicts.append(...)`
unfoldable pub conflict : Reason → Op → Option String → Option String → Progress → Progress
conflict reason op expected actual s = record s {
  conflicts =
      s.conflicts
      ++ record {
        reason = reason;
        record_id = op.record_id;
        op_id = op.op_id;
        expected = expected;
        actual = actual;
      }
        ∷ [];
}

-- `embedding_counts[f"embedding_{status}"] += 1`
unfoldable pub count_embedding : EmbeddingStatus → Progress → Progress
count_embedding reused s = record s { embedding_reused = s.embedding_reused + 1 }
count_embedding rebuilt s = record s { embedding_rebuilt = s.embedding_rebuilt + 1 }
count_embedding missing s = record s { embedding_missing = s.embedding_missing + 1 }
count_embedding failed s = record s { embedding_failed = s.embedding_failed + 1 }

unfoldable pub write_row : Row → EmbeddingStatus → Progress → Progress
unfolding count_embedding
write_row row status s =
    count_embedding status (record s { rows = insert row s.rows; applied = s.applied + 1 })

-- What the compare-and-swap test decides.
pub data Verdict : Type 0 where
  write skip : Verdict
  refuse : Reason → Verdict

unfoldable pub compare_and_swap : Bool → Option String → Option String → String → Verdict
compare_and_swap receiver_was_empty none none resulting = write
compare_and_swap receiver_was_empty none (some e) resulting =
    refuse (if receiver_was_empty then base_missing else state_divergence)
compare_and_swap receiver_was_empty (some current) none resulting =
    if current =ₛ resulting then skip else refuse id_reuse
compare_and_swap receiver_was_empty (some current) (some e) resulting =
    if current =ₛ resulting then skip else if current =ₛ e then write else refuse state_divergence

module _ (k : Codec) where
  -- The row that holds the content under another key, if there is one.
  abbrev pub holder : Row → Op → List Row → Option Row
  holder row op rows = elim (find_by_namespace_and_hash row.namespace row.content_hash rows) [
    | none ↦ none
    | some r ↦ if r.id =ₛ op.record_id then none else some r
  ]

  -- The rest of the loop's body, once the pre-image has matched.
  unfoldable pub write_record : Fields → Op → Progress → Progress
  write_record rec op s =
      if not (is_empty (k.validate rec))
      then conflict invalid_record op none (some (join_issues (k.validate rec))) s
      else elim (holder (k.to_row rec) op s.rows) [
        | none ↦ write_row (k.to_row rec) (k.status rec) s
        | some r ↦ conflict state_divergence op op.expected (some r.id) s
      ]

  -- `record_fingerprint(current) if current is not None else None`
  abbrev pub stored_fingerprint : Option Row → Option String
  stored_fingerprint none = none
  stored_fingerprint (some current) = some (k.fingerprint (k.of_row current))

  abbrev pub current_fingerprint : Op → List Row → Option String
  current_fingerprint op rows = stored_fingerprint (get_memory op.record_id rows)

  -- One round of the loop; `none` is an exception of `normalize_record`.
  unfoldable pub apply_op : Bool → Op → Progress → Option Progress
  apply_op empty op s =
      elim (compare_and_swap empty (current_fingerprint op s.rows) op.expected op.resulting) [
        | skip ↦ some (record s { skipped = s.skipped + 1 })
        | refuse reason ↦ some (conflict reason op op.expected (current_fingerprint op s.rows) s)
        | write ↦ elim (k.normalize op.content) [
          | none ↦ none
          | some rec ↦ some (write_record rec op s)
        ]
      ]

  -- The loop; `err` has the variables as an exception leaves them.
  unfoldable pub apply_ops : Bool → List Op → Progress → Result Progress Progress
  apply_ops empty [] s = ok s
  apply_ops empty (op ∷ rest) s = elim (apply_op empty op s) [
    | none ↦ err s
    | some s' ↦ apply_ops empty rest s'
  ]

-- What `verify_delta` hands over, and the manifest's entries that `apply_delta` reads.
pub record Verified : Type 0 where
  pub ops : List Op
  pub base_logical_id : String
  pub delta_digest : String
  pub resulting_state_fingerprint : Option String

pub data Failure : Type 0 where
  conflicted : List Conflict → Failure
  raised : Failure

pub record ApplyResult : Type 0 where
  pub applied : ℕ
  pub skipped : ℕ
  pub resulting_state_fingerprint : Option String
  pub embedding_reused : ℕ
  pub embedding_rebuilt : ℕ
  pub embedding_missing : ℕ
  pub embedding_failed : ℕ

-- The records that the loop has written, the checkpoint and the receipt.
unfoldable pub commit : Verified → Progress → Store → Store
commit v p s = record {
  rows = p.rows;
  checkpoints =
      s.checkpoints
      ++ record {
        base_logical_id = v.base_logical_id;
        delta_digest = v.delta_digest;
        applied_ops = p.applied;
        resulting_state_fingerprint = v.resulting_state_fingerprint;
      }
        ∷ [];
  receipts =
      s.receipts
      ++ record {
        base_logical_id = v.base_logical_id;
        delta_digest = v.delta_digest;
        applied = p.applied;
        skipped = p.skipped;
        resulting_state_fingerprint = v.resulting_state_fingerprint;
      }
        ∷ [];
}

abbrev pub result_of : Verified → Progress → ApplyResult
result_of v p = record {
  applied = p.applied;
  skipped = p.skipped;
  resulting_state_fingerprint = v.resulting_state_fingerprint;
  embedding_reused = p.embedding_reused;
  embedding_rebuilt = p.embedding_rebuilt;
  embedding_missing = p.embedding_missing;
  embedding_failed = p.embedding_failed;
}

abbrev pub with_rows : Progress → Store → Store
with_rows p s = record s { rows = p.rows }

-- The rest of the `try` block after the loop, and its `except` clause.
unfoldable pub finish :
    Verified
    → Connection Store
    → Result Progress Progress
    → Result Failure ApplyResult × Connection Store
finish v c (err p) = (err raised, db_rollback (execute (with_rows p) c))
finish v c (ok p) =
    if is_empty p.conflicts
    then (ok (result_of v p), db_commit (execute (commit v p) c))
    else (err (conflicted p.conflicts), db_rollback (execute (with_rows p) c))

unfoldable pub apply_on_connection :
    Codec → Verified → Connection Store → Result Failure ApplyResult × Connection Store
apply_on_connection k v c =
    finish v c (apply_ops k (is_empty c.working.rows) v.ops (begin c.working.rows))

-- What a call returns, with what the store then holds.
abbrev pub committed_by :
    Result Failure ApplyResult × Connection Store → Result Failure ApplyResult × Store
committed_by out = (out.0, out.1.committed)

-- The call on a connection with no open changes.
unfoldable pub apply_delta : Codec → Verified → Store → Result Failure ApplyResult × Store
apply_delta k v s = committed_by (apply_on_connection k v (clean s))
