-- ===== src/Delta/Codec.antt =====
-- What src/hotmem/interchange/delta.py uses of the record, embedding and fingerprint modules beside
-- it, as an interface, and what a stored row is that these operations keep.
use hot_mem.Prelude.{String, ◌≡◌, Option, some, List}
use hot_mem.Json.{str, Fields, get}
use hot_mem.Delta.Store.{Row}

-- The status of `resolve_embedding`.
pub data EmbeddingStatus : Type 0 where
  reused rebuilt missing failed : EmbeddingStatus

pub record Codec : Type 0 where
  pub normalize : Fields → Option Fields  -- `normalize_record`; `none` is an exception
  pub validate : Fields → List String  -- `validate_record`
  pub to_row : Fields → Row  -- `record_to_memory_record` after `resolve_embedding`
  pub status : Fields → EmbeddingStatus  -- the status of that `resolve_embedding`
  pub of_row : Row → Fields  -- `normalize_record` of a stored row, where it does not raise
  pub fingerprint : Fields → String  -- `record_fingerprint` of a normalized record
  pub sha256 : String → String  -- `sha256_bytes` of an encoded text

-- `record["id"]`, a text in every normalized record.
abbrev pub id_of : Fields → String
id_of r = elim (get "id" r) [ str s ↦ s | _ ↦ "" ]

-- Writing the record of this row and reading it back changes neither its key, nor its index entry,
-- nor its fingerprint, and normalizing that record leaves it as it is. A row without a content hash,
-- to which the normalization gives one, is not stable, for example.
pub record IsStable (k : Codec) (row : Row) : Type 0 where
  pub read_id : id_of (k.of_row row) ≡ row.id
  pub normalized : k.normalize (k.of_row row) ≡ some (k.of_row row)
  pub id : (k.to_row (k.of_row row)).id ≡ row.id
  pub namespace : (k.to_row (k.of_row row)).namespace ≡ row.namespace
  pub content_hash : (k.to_row (k.of_row row)).content_hash ≡ row.content_hash
  pub fingerprint :
      k.fingerprint (k.of_row (k.to_row (k.of_row row))) ≡ k.fingerprint (k.of_row row)
