-- ===== src/Log/Append.antt =====
-- `append_event` of src/hotmem/events.py and the helpers of the payloads.
use hot_mem.Prelude.{
  ◌^◌, String, Bool, false, ◌&&◌, not, Option, none, some, if◌then◌else◌, contains, ◌==◌, Result,
}
use hot_mem.Prelude.Strings.{is_blank}
use hot_mem.Json.{Value, null, str, num, bool, obj, Fields, end, field, get, has, put, truthy}
use hot_mem.Policy.Platform.{Platform, to_str}
use hot_mem.Events.Types.{Rules, reconstructing_event_types}
use hot_mem.Events.Candidates.{row_fields, safe_record_fingerprint}
use hot_mem.Events.Target.{Raised}
use hot_mem.Delta.Store.{Row}
use hot_mem.Log.Tables.{LogRow, Database, NewEvent, insert_event}

-- What `_extract_origin_identity` returns of a store.
pub record Origin : Type 0 where
  pub mount_id : String
  pub replica_id : String
  pub history_id : String
  pub runtime_generation : String

-- What the code calls of Python and of src/hotmem/interchange.
pub record Host : Type 0 where
  pub now : String  -- `_utc_now_iso()`
  pub ledger_now : String  -- the default of `operation_ledger.created_at`
  pub digest : Fields → String  -- the SHA-256 of the sorted JSON
  pub platform : Platform
  pub rules : Rules

-- `str(v or default)`
abbrev pub str_or : Host → Value → String → String
str_or h v default = if truthy v then to_str h.platform v else default

-- `given or default`
abbrev pub given_or : Option String → String → String
given_or none default = default
given_or (some s) default = if is_blank s then default else s

-- `_safe_record_fingerprint` of a row
abbrev pub row_fingerprint : Host → Row → String
row_fingerprint h row =
    safe_record_fingerprint h.platform h.rules (row_fields h.platform h.rules row)

abbrev pub origin_fields : Origin → Fields
origin_fields o = field "mount_id" (str o.mount_id) (
    field "replica_id" (str o.replica_id) (
      field "history_id" (str o.history_id)
        (field "runtime_generation" (str o.runtime_generation) end)))

-- `v == 1`
abbrev pub is_one : Value → Bool
is_one (num negative digits scale) = not negative && digits == 10 ^ scale
is_one (bool b) = b
is_one _ = false

abbrev pub put_missing : String → Value → Fields → Fields
put_missing k v d = if has k d then d else put k v d

-- The payload that is stored.
unfoldable pub stored_payload : Origin → String → String → Fields → Fields
stored_payload origin event_type occurred_at payload =
    if contains reconstructing_event_types event_type
      && is_one (get "payload_schema_version" payload)
    then put_missing "occurred_at" (str occurred_at)
        (put_missing "origin" (obj (origin_fields origin)) payload)
    else payload

-- What `append_event` is called with, and the id that it draws.
pub record Entry : Type 0 where
  pub event_id : String  -- `uuid.uuid4().hex`
  pub event_type : String
  pub memory_id : Option String
  pub namespace : String
  pub payload : Fields
  pub occurred_at : Option String

abbrev pub new_event : Host → Origin → Entry → NewEvent
new_event h origin e = record {
  event_type = e.event_type;
  event_id = e.event_id;
  memory_id = e.memory_id;
  namespace = e.namespace;
  occurred_at = given_or e.occurred_at h.now;
  payload = stored_payload origin e.event_type (given_or e.occurred_at h.now) e.payload;
}

-- `append_event`
unfoldable pub append_event : Host → Origin → Entry → Database → Result Raised (Database × LogRow)
append_event h origin e db = insert_event (new_event h origin e) db

abbrev pub text_or_null : Option String → Value
text_or_null none = null
text_or_null (some s) = str s

-- The dictionary that `append_event` returns.
unfoldable pub event_fields : LogRow → Fields
event_fields e =
    let reconstructing = contains reconstructing_event_types e.event_type in
    field "seq" (num false e.seq 0) (
      field "event_id" (str e.event_id) (
        field "memory_id" (text_or_null e.memory_id) (
          field "namespace" (str e.namespace) (
            field "event_type" (str e.event_type) (
              field "occurred_at" (str e.occurred_at) (
                field "reconstructing" (bool reconstructing) (
                  field "event_category"
                    (str (if reconstructing then "reconstructing" else "observational"))
                    (field "payload" (obj e.payload) end))))))))
