-- ===== src/Log/Ledger.antt =====
-- The operation ledger of src/hotmem/db.py, which makes a repeated call return what the first one did.
use hot_mem.Prelude.{
  String, Bool, ◌&&◌, ◌||◌, not, Option, none, some, List, [], ◌∷◌, ◌++◌, if◌then◌else◌, keep,
  or_else, ◌=ₛ◌,
}
use hot_mem.Log.Tables.{LedgerRow, str_ltb}

-- The primary key is the caller, the namespace and the operation's key.
abbrev pub has_key : String → String → String → LedgerRow → Bool
has_key caller ns key row =
    row.caller_id =ₛ caller && row.namespace =ₛ ns && row.operation_key =ₛ key

-- `get_operation_ledger`
unfoldable pub get_operation_ledger : String → String → String → List LedgerRow → Option LedgerRow
get_operation_ledger caller ns key [] = none
get_operation_ledger caller ns key (row ∷ rest) =
    let found = get_operation_ledger caller ns key rest in
    if has_key caller ns key row then some row else found

abbrev pub is_for_memory : String → String → String → LedgerRow → Bool
is_for_memory caller key id row =
    row.caller_id =ₛ caller && row.operation_key =ₛ key && row.memory_id =ₛ id

-- `ORDER BY created_at DESC, namespace ASC LIMIT 1`
abbrev pub latest : List LedgerRow → Option LedgerRow
latest [] = none
latest (row ∷ rest) = elim (latest rest) [
  | none ↦ some row
  | some other ↦
      if str_ltb row.created_at other.created_at
        || row.created_at =ₛ other.created_at && str_ltb other.namespace row.namespace
      then some other
      else some row
]

-- `get_operation_ledger_for_memory`
unfoldable pub get_operation_ledger_for_memory :
    String → String → String → List LedgerRow → Option LedgerRow
get_operation_ledger_for_memory caller key id rows =
    latest (keep (is_for_memory caller key id) rows)

-- `put_operation_ledger`
unfoldable pub put_operation_ledger : LedgerRow → List LedgerRow → List LedgerRow
put_operation_ledger new rows =
    keep (λ row. not (has_key new.caller_id new.namespace new.operation_key row)) rows ++ new ∷ []

-- The two lookups of a call that names a key.
abbrev pub find_operation : String → String → String → String → List LedgerRow → Option LedgerRow
find_operation caller ns key id rows =
    or_else (get_operation_ledger caller ns key rows)
      (get_operation_ledger_for_memory caller key id rows)
