-- ===== src/Delta/Store.antt =====
-- The tables of src/hotmem/db.py that a delta touches: memories, checkpoints and receipts.
use hot_mem.Prelude.{
  ℕ, String, Bool, ◌&&◌, ◌||◌, not, Option, none, some, List, [], ◌∷◌, ◌++◌, if◌then◌else◌, keep,
  ◌=ₛ◌,
}
use hot_mem.Prelude.Strings.{is_blank}
use hot_mem.Json.{Fields}

-- A row of `memories`: the key, the two columns of the unique index, and the other columns.
pub record Row : Type 0 where
  pub id : String
  pub namespace : String
  pub content_hash : String
  pub columns : Fields

-- `get_memory`
unfoldable pub get_memory : String → List Row → Option Row
get_memory key [] = none
get_memory key (r ∷ rest) = let found = get_memory key rest in if r.id =ₛ key then some r else found

abbrev pub same_hash : String → String → Row → Bool
same_hash ns hash r = r.namespace =ₛ ns && r.content_hash =ₛ hash

abbrev pub find_hash : String → String → List Row → Option Row
find_hash ns hash [] = none
find_hash ns hash (r ∷ rest) =
    let found = find_hash ns hash rest in if same_hash ns hash r then some r else found

unfoldable pub find_by_namespace_and_hash : String → String → List Row → Option Row
find_by_namespace_and_hash ns hash rows = if is_blank hash then none else find_hash ns hash rows

-- The rows that `INSERT OR REPLACE` removes: the same key, or the same entry of the unique index
-- on (namespace, content_hash), which covers the rows whose hash is not empty.
abbrev pub displaces : Row → Row → Bool
displaces new r =
    r.id =ₛ new.id || not (is_blank new.content_hash) && same_hash new.namespace new.content_hash r

unfoldable pub insert : Row → List Row → List Row
insert new rows = keep (λ r. not (displaces new r)) rows ++ new ∷ []

pub record Checkpoint : Type 0 where
  pub base_logical_id : String
  pub delta_digest : String
  pub applied_ops : ℕ
  pub resulting_state_fingerprint : Option String

-- The payload of a `sync.applied` event.
pub record Receipt : Type 0 where
  pub base_logical_id : String
  pub delta_digest : String
  pub applied : ℕ
  pub skipped : ℕ
  pub resulting_state_fingerprint : Option String

pub record Store : Type 0 where
  pub rows : List Row
  pub checkpoints : List Checkpoint
  pub receipts : List Receipt
