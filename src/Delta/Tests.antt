-- ===== src/Delta/Tests.antt =====
-- Runs of the delta model on a small codec, and its theorems at concrete inputs.
mod Conflicts
use Prim.Native.String.{◌++◌ as ◌+++◌}
use mathlib.Core.List.{Memᴰ}
use hot_mem.Prelude.{
  ◌+◌, String, ◌≡◌, ◌≢◌, refl, ◌⊎◌, inl, inr, false, not, ◌&&◌, none, some, List, [], ◌∷◌, ◌++◌, ok,
  err, length, any, ◌=ₛ◌, eq_iff, Bool-cases, if◌then◌else◌,
}
use hot_mem.Prelude.Strings.{is_blank, ne_of_eq-false}
use hot_mem.Prelude.Membership.{Memᴰ→any, All-Memᴰ}
use hot_mem.Json.{str, obj, Fields, end, field, get}
use hot_mem.Delta.Store.{Row, Store, get_memory, find_by_namespace_and_hash, insert}
use hot_mem.Delta.Codec.{Codec, IsStable, id_of, reused}
use hot_mem.Delta.Rows.{clashes, NoClash}
use hot_mem.Delta.Produce.{Op, base_fingerprint, op_id, upsert, classify, diff}
use hot_mem.Delta.Apply.{
  Progress, begin, id_reuse, Verified, conflicted, ApplyResult, conflict, count_embedding,
  write_row, write_record, compare_and_swap, current_fingerprint, holder, apply_op, apply_ops,
  commit, finish, apply_on_connection, apply_delta,
}
use hot_mem.Delta.Accounting.{apply_delta_accounts}
use hot_mem.Delta.Roundtrip.{fingerprint_at, fingerprint_of, IsReady}
use hot_mem.Delta.Produced.{apply_delta-diff}
use hot_mem.Delta.Replay.{HasArrived, apply_delta-twice}
use hot_mem.Delta.Guards.{apply_op_guarded}
use hot_mem.Delta.Mismatch.{apply_op_mismatched}

abbrev text_at : String → Fields → String
text_at key r = elim (get key r) [ str s ↦ s | _ ↦ "" ]

abbrev fields_at : String → Fields → Fields
fields_at key r = elim (get key r) [ obj d ↦ d | _ ↦ end ]

-- The key is no part of the fingerprint, and a row without a content hash is given one: it is not
-- stable.
abbrev pub small : Codec
small = record {
  normalize = some;
  validate = λ r. if is_blank (text_at "content_hash" r) then "empty" ∷ [] else [];
  to_row = λ r. record {
    id = id_of r;
    namespace = text_at "namespace" r;
    content_hash = text_at "content_hash" r;
    columns = fields_at "columns" r;
  };
  status = λ r. reused;
  of_row = λ row. field "id" (str row.id) (
      field "namespace" (str row.namespace) (
        field "content_hash" (str (if is_blank row.content_hash then "none" else row.content_hash))
          (field "columns" (obj row.columns) end)));
  fingerprint = λ r. text_at "namespace" r +++ "/" +++ text_at "content_hash" r;
  sha256 = λ s. s;
}

abbrev pub row : String → String → Row
row id hash = record { id = id; namespace = "n"; content_hash = hash; columns = end }

-- "b" has changed since the base and "c" is new; the receiver has a row "x" of its own.
abbrev base_records : List Fields
base_records = small.of_row (row "a" "h1") ∷ small.of_row (row "b" "h2") ∷ []

abbrev current_rows : List Row
current_rows = row "a" "h1" ∷ row "b" "h3" ∷ row "c" "h4" ∷ []

abbrev pub receiver : Store
receiver = record {
  rows = row "a" "h1" ∷ row "b" "h2" ∷ row "x" "h5" ∷ [];
  checkpoints = [];
  receipts = [];
}

abbrev verified : List Op → Verified
verified ops = record {
  ops = ops;
  base_logical_id = "base";
  delta_digest = "digest";
  resulting_state_fingerprint = some "state";
}

abbrev pub source_delta : Verified
source_delta = verified (diff small base_records current_rows).ops

no_clash :
    (new : Row) (rows : List Row)
    → any (λ r. clashes new r && not (r.id =ₛ new.id)) rows ≡ false
    → NoClash new rows
no_clash new rows h r at c = elim (Bool-cases (r.id =ₛ new.id)) [
  | inl same ↦ (eq_iff r.id new.id).0 same
  | inr differs ↦
      let found = Memᴰ→any (λ o. clashes new o && not (o.id =ₛ new.id)) at (rw (c, differs) refl) in
      absurd (cc (found, h))
]

pub program : Unit {0}
unfolding get get_memory find_by_namespace_and_hash insert base_fingerprint op_id upsert classify
    diff conflict count_embedding write_row write_record compare_and_swap apply_op apply_ops commit
    finish apply_on_connection apply_delta
program = tt

is_stable : (id hash : String) → is_blank hash ≡ false → IsStable small (row id hash)
unfolding get
is_stable id hash full = record {
  read_id = refl;
  normalized = refl;
  id = refl;
  namespace = refl;
  content_hash = rw full refl;
  fingerprint = rw full (rw full refl);
}

receiver-IsReady : IsReady small base_records current_rows receiver.rows
unfolding program
receiver-IsReady = record {
  cloned = λ r at.
      All-Memᴰ
        (λ x. fingerprint_at small x.id receiver.rows ≡ base_fingerprint small base_records x.id)
        current_rows (refl, (refl, (refl, tt))) at;
  clean = λ r at.
      All-Memᴰ (λ x. NoClash x receiver.rows) current_rows
        (
          no_clash (row "a" "h1") receiver.rows refl,
          (
            no_clash (row "b" "h3") receiver.rows refl,
            (no_clash (row "c" "h4") receiver.rows refl, tt),
          ),
        )
        at;
  unique = λ r at.
      All-Memᴰ (λ x. NoClash x current_rows) current_rows
        (
          no_clash (row "a" "h1") current_rows refl,
          (
            no_clash (row "b" "h3") current_rows refl,
            (no_clash (row "c" "h4") current_rows refl, tt),
          ),
        )
        at;
  distinct = (
    λ o at.
        All-Memᴰ (λ x. x.id ≢ "a") _ (ne_of_eq-false _ _ refl, (ne_of_eq-false _ _ refl, tt)) at,
    (
      λ o at. All-Memᴰ (λ x. x.id ≢ "b") _ (ne_of_eq-false _ _ refl, tt) at,
      (λ o at. All-Memᴰ (λ x. x.id ≢ "c") [] tt at, tt),
    ),
  );
  valid = λ r at.
      All-Memᴰ (λ x. small.validate (small.of_row x) ≡ []) current_rows (refl, (refl, (refl, tt)))
        at;
  stable = λ r at.
      All-Memᴰ (λ x. IsStable small x) current_rows
        (is_stable "a" "h1" refl, (is_stable "b" "h3" refl, (is_stable "c" "h4" refl, tt))) at;
}

-- The receiver after the delta: "b" and "c" stand last, as they were written.
abbrev synced_rows : List Row
synced_rows = row "a" "h1" ∷ row "x" "h5" ∷ row "b" "h3" ∷ row "c" "h4" ∷ []

synced_test : (apply_delta small source_delta receiver).1.rows ≡ synced_rows
unfolding program
synced_test = refl

apply_delta-diff_example :
    (r : ApplyResult) × (t : Store) × (apply_delta small source_delta receiver ≡ (ok r, t))
    × (r.applied
        ≡ (diff small base_records current_rows).added
          + (diff small base_records current_rows).changed)
    × (r.skipped ≡ 0)
    × ((x : Row)
        → Memᴰ x current_rows
        → fingerprint_at small x.id t.rows ≡ some (fingerprint_of small x))
    × ((key : String)
        → ((x : Row) → Memᴰ x current_rows → x.id ≢ key)
        → get_memory key t.rows ≡ get_memory key receiver.rows)
apply_delta-diff_example =
    apply_delta-diff small base_records current_rows source_delta receiver receiver-IsReady refl

abbrev synced : Store
synced = record receiver {
  rows = synced_rows;
  checkpoints =
      record {
        base_logical_id = "base";
        delta_digest = "digest";
        applied_ops = 2;
        resulting_state_fingerprint = some "state";
      }
      ∷ [];
  receipts =
      record {
        base_logical_id = "base";
        delta_digest = "digest";
        applied = 2;
        skipped = 0;
        resulting_state_fingerprint = some "state";
      }
      ∷ [];
}

abbrev counts : ApplyResult
counts = record {
  applied = 2;
  skipped = 0;
  resulting_state_fingerprint = some "state";
  embedding_reused = 2;
  embedding_rebuilt = 0;
  embedding_missing = 0;
  embedding_failed = 0;
}

applied_test : apply_delta small source_delta receiver ≡ (ok counts, synced)
unfolding program
applied_test = refl

apply_delta_accounts_example :
    (counts.applied + counts.skipped ≡ length source_delta.ops)
    × (counts.embedding_reused + counts.embedding_rebuilt + counts.embedding_missing
          + counts.embedding_failed
        ≡ counts.applied)
    × (synced.checkpoints
        ≡ receiver.checkpoints
          ++ record {
            base_logical_id = "base";
            delta_digest = "digest";
            applied_ops = counts.applied;
            resulting_state_fingerprint = some "state";
          }
            ∷ [])
    × (synced.receipts
        ≡ receiver.receipts
          ++ record {
            base_logical_id = "base";
            delta_digest = "digest";
            applied = counts.applied;
            skipped = counts.skipped;
            resulting_state_fingerprint = some "state";
          }
            ∷ [])
apply_delta_accounts_example = apply_delta_accounts small source_delta receiver applied_test

apply_delta-twice_example :
    (r' : ApplyResult) × (t' : Store) × (apply_delta small source_delta synced ≡ (ok r', t'))
    × (r'.applied ≡ 0)
    × (r'.skipped ≡ length source_delta.ops)
    × (t'.rows ≡ synced.rows)
apply_delta-twice_example =
    apply_delta-twice small base_records current_rows source_delta receiver receiver-IsReady refl
      applied_test
