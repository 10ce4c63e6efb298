-- ===== src/Delta/Produce.antt =====
-- `produce_delta`: the operations that lead from the base records to the current rows.
use Prim.Native.String.{◌++◌ as ◌+++◌}
use hot_mem.Prelude.{
  ℕ, ◌+◌, String, ◌||◌, Option, none, some, List, [], ◌∷◌, if◌then◌else◌, contains, map, or_else,
  ◌=ₛ◌,
}
use hot_mem.Json.{Fields}
use hot_mem.Delta.Store.{Row}
use hot_mem.Delta.Codec.{Codec, id_of}

pub record Op : Type 0 where
  pub op_id : String
  pub record_id : String
  pub expected : Option String
  pub content : Fields
  pub resulting : String

pub record Diff : Type 0 where
  pub ops : List Op
  pub added : ℕ
  pub changed : ℕ

module _ (k : Codec) where
  -- `base_fingerprints.get(record_id)`; a later record with the same key wins.
  unfoldable pub base_fingerprint : List Fields → String → Option String
  base_fingerprint [] key = none
  base_fingerprint (r ∷ rest) key =
      or_else (base_fingerprint rest key) (if id_of r =ₛ key then some (k.fingerprint r) else none)

  -- `_op_id`
  unfoldable pub op_id : String → String → String
  op_id record_id resulting = k.sha256 ("upsert:" +++ record_id +++ ":" +++ resulting)

  unfoldable pub upsert : Option String → Row → Op
  upsert expected row =
      let normalized = k.of_row row in
      let resulting = k.fingerprint normalized in
      record {
        op_id = op_id (id_of normalized) resulting;
        record_id = id_of normalized;
        expected = expected;
        content = normalized;
        resulting = resulting;
      }

  -- One round of the loop over the current rows: `added`, `changed`, or no operation.
  unfoldable pub classify : Option String → Row → Diff → Diff
  classify none row d = record d { ops = upsert none row ∷ d.ops; added = d.added + 1 }
  classify (some base) row d =
      if base =ₛ k.fingerprint (k.of_row row)
      then d
      else record d { ops = upsert (some base) row ∷ d.ops; changed = d.changed + 1 }

  unfoldable pub diff : List Fields → List Row → Diff
  diff base [] = record { ops = []; added = 0; changed = 0 }
  diff base (row ∷ rest) =
      classify (base_fingerprint base (id_of (k.of_row row))) row (diff base rest)

  -- `len(base_ids - current_ids)`
  unfoldable pub removed_since_base : List Fields → List Row → ℕ
  removed_since_base [] rows = 0
  removed_since_base (r ∷ rest) rows =
      let n = removed_since_base rest rows in
      if contains (map (λ b. id_of b) rest) (id_of r)
        || contains (map (λ row. id_of (k.of_row row)) rows) (id_of r)
      then n
      else n + 1
