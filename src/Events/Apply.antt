-- ===== src/Events/Apply.antt =====
-- `apply_event_range` of src/hotmem/events.py: the second pass, which writes to the target in one
-- transaction what the first pass has planned.
pub mod Batches
pub mod Counts
pub mod Order
pub mod Tombs
use hot_mem.Prelude.{
  ℕ, suc, ◌+◌, ◌-◌, String, Bool, true, false, ◌&&◌, not, Option, none, some, List, [], ◌∷◌, ◌++◌,
  map, length, is_empty, if◌then◌else◌, keep, contains, ◌=ₛ◌, ◌==◌, leb, Result, ok, err, ◌>>=◌,
  ◌>>◌, raise_if,
}
use hot_mem.Prelude.Strings.{is_blank}
use hot_mem.Json.{Value, null, str, num, obj, Fields, end, get, truthy}
use hot_mem.Policy.Platform.{Platform, to_str, str_or_empty}
use hot_mem.Delta.Store.{Row, get_memory}
use hot_mem.Events.Types.{Event, Source, Rules, ReplayError, reconstructing_event_types}
use hot_mem.Events.State.{Map, put_at, Mark, Sim}
use hot_mem.Events.Move.{
  Planned, Disposition, observational, skip_idempotent, skip_legacy_deduped, apply_create,
  apply_update, apply_delete,
}
use hot_mem.Events.Plan.{plan_events}
use hot_mem.Events.Target.{
  Driver, Raised, conversion, unplanned, TombRow, Target, insert_many_ignore, replace_memory_record,
  delete_memory_row, has_row, record_tombstone, set_replay_watermark, delete_replay_watermark,
  event_to_memory_record,
}

-- A created record that waits for the next flush, with its watermark.
pub record Pending : Type 0 where
  pub row : Row
  pub mark : Mark

-- The variables of the second pass.
pub record Run : Type 0 where
  pub target : Target
  pub page : List Pending
  pub applied : ℕ
  pub skipped : ℕ

-- The watermarks of the records that are present are set.
unfoldable pub present_marks : List Row → List Pending → Map Mark → Map Mark
present_marks rows [] marks = marks
present_marks rows (x ∷ page) marks =
    present_marks rows page (if has_row x.row.id rows then put_at x.row.id x.mark marks else marks)

abbrev pub page_rows : List Pending → List Row
page_rows page = map (λ (x : Pending). x.row) page

-- What a flush of the page leaves in the target, and how many records it inserts.
unfoldable pub flush_page : Driver → List Pending → Target → Result Raised (Target × ℕ)
flush_page d page t = insert_many_ignore d (page_rows page) t.rows >>= λ (rows, inserted).
    ok (record t { rows = rows; marks = present_marks rows page t.marks }, inserted)

-- `_flush_created`
unfoldable pub flush_created : Driver → Run → Result Raised Run
flush_created d run =
    if is_empty run.page
    then ok run
    else flush_page d run.page run.target >>= λ (t, inserted). ok (record {
      target = t;
      page = [];
      applied = run.applied + inserted;
      skipped = run.skipped + (length run.page - inserted);
    })

-- `plan_by_seq`: the last step of a sequence number.
unfoldable pub plan_by_seq : List Planned → ℕ → Option Planned
plan_by_seq [] n = none
plan_by_seq (step ∷ steps) n =
    let later = plan_by_seq steps n in
    elim later [ some s ↦ some s | none ↦ if step.seq == n then some step else none ]

abbrev pub seq_number : Value → Option ℕ
seq_number (num false digits scale) = if scale == 0 then some digits else none
seq_number v = none

abbrev pub payload_fields : Value → Fields
payload_fields (obj d) = d
payload_fields v = end

abbrev pub fields_or_empty : Value → Fields
fields_or_empty (obj d) = d
fields_or_empty v = end

abbrev pub planned_step : List Planned → Event → Result Raised Planned
planned_step steps e = elim (seq_number e.seq) [
  | none ↦ err conversion
  | some n ↦ elim (plan_by_seq steps n) [ none ↦ err unplanned | some step ↦ ok step ]
]

module _ (p : Platform) (d : Driver) (batch : ℕ) (src : Source) where
  -- `str(v or default)`
  abbrev pub text_or : Value → String → String
  text_or v default = if truthy v then to_str p v else default

  abbrev pub mark_of : ℕ → String → String → String → String → Mark
  mark_of seq event_id namespace hash fingerprint = record {
    namespace = namespace;
    content_hash = hash;
    fingerprint = fingerprint;
    last_seq = seq;
    last_event_id = event_id;
    history_id = src.history_id;
  }

  abbrev pub count_applied : Bool → Run → Run
  count_applied true run = record run { applied = suc run.applied }
  count_applied false run = record run { skipped = suc run.skipped }

  unfoldable pub apply_skipped : Planned → Event → Run → Run
  apply_skipped step e run =
      let payload = payload_fields e.payload in
      record run {
        skipped = suc run.skipped;
        target =
            set_replay_watermark (to_str p (get "id" payload))
              (mark_of step.seq (str_or_empty p e.event_id)
                (str_or_empty p (get "namespace" payload))
                (str_or_empty p (get "content_hash" payload)) "")
              run.target;
      }

  -- A created record joins the page, which is flushed when it is full.
  unfoldable pub enqueue : Pending → Run → Result Raised Run
  enqueue created run =
      let waiting : Run = record run { page = run.page ++ created ∷ [] } in
      if leb batch (length waiting.page) then flush_created d waiting else ok waiting

  abbrev pub mark_row : Planned → Event → Row → Mark
  mark_row step e row =
      mark_of step.seq (str_or_empty p e.event_id) row.namespace row.content_hash step.fingerprint

  unfoldable pub apply_created : Planned → Event → Run → Result Raised Run
  apply_created step e run = do
    rec ← event_to_memory_record d (payload_fields e.payload)
    elim rec [
      | none ↦ ok run
      | some row ↦ enqueue (record { row = row; mark = mark_row step e row }) run
    ]

  unfoldable pub replace_row : Row → Mark → Run → Result Raised Run
  replace_row row mark run = replace_memory_record d row run.target.rows >>= λ (rows, found). ok (
      count_applied found (record run {
        target =
            if found
            then set_replay_watermark row.id mark (record run.target { rows = rows })
            else run.target;
      }))

  unfoldable pub apply_updated : Planned → Event → Run → Result Raised Run
  apply_updated step e run = do
    flushed ← flush_created d run
    rec ← event_to_memory_record d (payload_fields e.payload)
    elim rec [ none ↦ err conversion | some row ↦ replace_row row (mark_row step e row) flushed ]

  abbrev pub tombstone_of : Planned → Event → Option Row → TombRow
  tombstone_of step e old =
      let payload = payload_fields e.payload in
      let origin = fields_or_empty (get "origin" payload) in
      let columns : Fields = elim old [ none ↦ end | some r ↦ r.columns ] in
      record {
        namespace = str_or_empty p (get "namespace" payload);
        identifier = str_or_empty p (get "identifier" payload);
        content_hash = str_or_empty p (get "content_hash" payload);
        record_fingerprint = step.fingerprint;
        deleted_at = text_or (get "deleted_at" payload) (str_or_empty p e.occurred_at);
        deleted_at_seq = step.seq;
        delete_event_id = str_or_empty p e.event_id;
        origin_mount_id = text_or (get "mount_id" origin) src.mount_id;
        origin_replica_id = text_or (get "replica_id" origin) src.replica_id;
        origin_history_id = text_or (get "history_id" origin) src.history_id;
        metadata_json = text_or (get "metadata_json" columns) "{}";
        tags = text_or (get "tags" columns) "[]";
        reason = str_or_empty p (get "reason" payload);
      }

  unfoldable pub apply_deleted : Planned → Event → Run → Result Raised Run
  apply_deleted step e run = do
    flushed ← flush_created d run
    let id = to_str p (get "id" (payload_fields e.payload))
    let t = flushed.target
    let (rows, found) = delete_memory_row id t.rows
    let tomb = tombstone_of step e (get_memory id t.rows)
    ok (
        count_applied found (record flushed {
          target = record_tombstone id tomb (delete_replay_watermark id (record t { rows = rows }));
        }))

  unfoldable pub apply_disposition : Disposition → Planned → Event → Run → Result Raised Run
  apply_disposition observational step e run = ok run
  apply_disposition skip_idempotent step e run = ok (record run { skipped = suc run.skipped })
  apply_disposition skip_legacy_deduped step e run = ok (apply_skipped step e run)
  apply_disposition apply_create step e run = apply_created step e run
  apply_disposition apply_update step e run = apply_updated step e run
  apply_disposition apply_delete step e run = apply_deleted step e run

  abbrev pub apply_step : Planned → Event → Run → Result Raised Run
  apply_step step e run = apply_disposition step.disposition step e run

  -- The loop of the second pass.
  unfoldable pub apply_events : List Planned → List Event → Run → Result Raised Run
  apply_events steps [] run = ok run
  apply_events steps (e ∷ events) run = do
    step ← planned_step steps e
    next ← apply_step step e run
    apply_events steps events next

  -- The same loop with each step beside its event.
  unfoldable pub apply_planned : List Planned → List Event → Run → Result Raised Run
  apply_planned [] events run = ok run
  apply_planned (step ∷ steps) [] run = ok run
  apply_planned (step ∷ steps) (e ∷ events) run = do
    next ← apply_step step e run
    apply_planned steps events next
