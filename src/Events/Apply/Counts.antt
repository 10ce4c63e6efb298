-- ===== src/Events/Apply/Counts.antt =====
-- Every event that is not observational is counted once, as applied or as skipped.
use hot_mem.Prelude.{
  ℕ, suc, ◌+◌, ◌-◌, ◌≤◌, ◌≡◌, refl, ap, ◌∙◌, inl, inr, Bool, true, false, not, Option, none, some,
  List, [], ◌∷◌, ◌++◌, length, leb, is_empty, arith, Result, ok, err, ◌>>=◌, >>=-eq-ok,
  raise_if-eq-ok, ok-injective, Bool-cases,
}
use hot_mem.Json.{Fields, get, truthy}
use hot_mem.Policy.Platform.{Platform, to_str}
use hot_mem.Delta.Store.{Row}
use hot_mem.Events.Types.{Event, Source}
use hot_mem.Events.State.{Mark}
use hot_mem.Events.Move.{
  Planned, Disposition, observational, skip_idempotent, skip_legacy_deduped, apply_create,
  apply_update, apply_delete,
}
use hot_mem.Events.Target.{
  Driver, Raised, unbound, Target, insert_ignore, insert_many_ignore, event_to_memory_record,
  replace_memory_record, conversion, delete_memory_row,
}
use hot_mem.Events.Apply.{
  Pending, Run, page_rows, flush_page, flush_created, payload_fields, apply_skipped, apply_created,
  apply_updated, apply_deleted, apply_disposition, apply_step, apply_planned, enqueue, mark_row,
  replace_row, count_applied,
}

-- The events that the pass has counted, and those that wait in the page.
abbrev pub total : Run → ℕ
total run = run.applied + run.skipped + length run.page

abbrev pub weight : Disposition → ℕ
weight observational = 0
weight _ = 1

-- The number of events that are not observational.
abbrev pub to_count : List Planned → ℕ
to_count [] = 0
to_count (step ∷ steps) = weight step.disposition + to_count steps

-- The payload of a creation has an id.
abbrev pub IsNamed : Disposition → Event → Type 0
IsNamed apply_create e = truthy (get "id" (payload_fields e.payload)) ≡ true
IsNamed _ e = Unit

abbrev pub AllNamed : List Planned → List Event → Type 0
AllNamed [] [] = Unit
AllNamed [] (e ∷ events) = ⊥
AllNamed (step ∷ steps) [] = ⊥
AllNamed (step ∷ steps) (e ∷ events) = IsNamed step.disposition e × AllNamed steps events

insert_many_ignore-count :
    (d : Driver) (xs rows rows' : List Row) (n : ℕ)
    → insert_many_ignore d xs rows ≡ ok (rows', n)
    → n ≤ length xs
unfolding insert_many_ignore
insert_many_ignore-count d [] rows rows' n h = ground arith
insert_many_ignore-count d (x ∷ xs) rows rows' n h =
    let (bound, h1) = raise_if-eq-ok (not (d.binds x)) unbound _ h in
    let ((later, m), inserted, h2) =
      >>=-eq-ok (insert_many_ignore d xs (insert_ignore d x rows)) _ h1 in
    let le = insert_many_ignore-count d xs (insert_ignore d x rows) later m inserted in ground arith

page_rows-length : (page : List Pending) → length (page_rows page) ≡ length page
page_rows-length [] = refl
page_rows-length (x ∷ page) = ap suc (page_rows-length page)

flush_page-total :
    (d : Driver) (run run' : Run)
    → (flush_page d run.page run.target >>= λ (t, inserted). ok (record {
      target = t;
      page = [];
      applied = run.applied + inserted;
      skipped = run.skipped + (length run.page - inserted);
    }))
      ≡ ok run'
    → total run' ≡ total run
unfolding flush_page
flush_page-total d run run' h =
    let ((t, n), flushed, h1) = >>=-eq-ok (flush_page d run.page run.target) _ h in
    let ((rows, m), inserted, h2) =
      >>=-eq-ok (insert_many_ignore d (page_rows run.page) run.target.rows) _ flushed in
    let le = insert_many_ignore-count d (page_rows run.page) run.target.rows rows m inserted in
    let same : n ≡ m = ap (λ (x : Target × ℕ). x.1) (ok-injective h2) in
    let size = page_rows-length run.page in ap total (ok-injective h1) ∙ omega arith

is_empty-length : (page : List Pending) → is_empty page ≡ true → length page ≡ 0
is_empty-length [] h = refl
is_empty-length (x ∷ page) h = cc

length-snoc : (page : List Pending) (x : Pending) → length (page ++ x ∷ []) ≡ suc (length page)
length-snoc [] x = refl
length-snoc (y ∷ page) x = ap suc (length-snoc page x)

-- A flush leaves an empty page and the total.
pub flush_created-total :
    (d : Driver) (run run' : Run) → flush_created d run ≡ ok run' → total run' ≡ total run
unfolding flush_created flush_page
flush_created-total d run run' h = elim (Bool-cases (is_empty run.page)) [
  | inl empty ↦ ap total (ok-injective (rw empty at h))
  | inr waiting ↦ flush_page-total d run run' (rw waiting at h)
]

pub flush_created-empty :
    (d : Driver) (run run' : Run) → flush_created d run ≡ ok run' → length run'.page ≡ 0
unfolding flush_created
flush_created-empty d run run' h = elim (Bool-cases (is_empty run.page)) [
  | inl empty ↦
      ap (λ (r : Run). length r.page) (ok-injective (rw empty at h))
      ∙ is_empty-length run.page empty
  | inr waiting ↦
      let ((t, n), flushed, h1) =
        >>=-eq-ok (flush_page d run.page run.target) _ (rw waiting at h) in
      ap (λ (r : Run). length r.page) (ok-injective h1)
]

module _ (p : Platform) (d : Driver) (batch : ℕ) (src : Source) where
  event_to_memory_record-some :
      (payload : Fields) (made : Option Row)
      → truthy (get "id" payload) ≡ true
      → event_to_memory_record d payload ≡ ok made
      → (row : Row) × (made ≡ some row)
  unfolding event_to_memory_record
  event_to_memory_record-some payload none named h = absurd (ground arith)
  event_to_memory_record-some payload (some row) named h = (row, refl)

  count_applied-total :
      (found : Bool) (run : Run) → total (count_applied p d batch src found run) ≡ suc (total run)
  count_applied-total true run = omega arith
  count_applied-total false run = omega arith

  enqueue-total :
      (created : Pending) (run run' : Run)
      → enqueue p d batch src created run ≡ ok run'
      → total run' ≡ suc (total run)
  unfolding enqueue
  enqueue-total created run run' h =
      let waiting : Run = record run { page = run.page ++ created ∷ [] } in
      let size = length-snoc run.page created in
      elim (Bool-cases (leb batch (length waiting.page))) [
        | inl full ↦ flush_created-total d waiting run' (rw full at h) ∙ omega arith
        | inr room ↦ ap total (ok-injective (rw room at h)) ∙ omega arith
      ]

  apply_created-total :
      (step : Planned) (e : Event) (run run' : Run)
      → truthy (get "id" (payload_fields e.payload)) ≡ true
      → apply_created p d batch src step e run ≡ ok run'
      → total run' ≡ suc (total run)
  unfolding apply_created
  apply_created-total step e run run' named h =
      let (made, converted, h1) =
        >>=-eq-ok (event_to_memory_record d (payload_fields e.payload)) _ h in
      let (row, is_row) =
        event_to_memory_record-some (payload_fields e.payload) made named converted in
      enqueue-total (record { row = row; mark = mark_row p d batch src step e row }) run run'
        (rw is_row at h1)

  replace_row-total :
      (row : Row) (mark : Mark) (run run' : Run)
      → replace_row p d batch src row mark run ≡ ok run'
      → total run' ≡ suc (total run)
  unfolding replace_row
  replace_row-total row mark run run' h =
      let ((rows, found), replaced, h1) =
        >>=-eq-ok (replace_memory_record d row run.target.rows) _ h in
      ap total (ok-injective h1) ∙ count_applied-total found _

  updated-some :
      (step : Planned) (e : Event) (made : Option Row) (run run' : Run)
      → (elim made as (λ x. Result Raised Run) [
        | none ↦ err conversion
        | some row ↦ replace_row p d batch src row (mark_row p d batch src step e row) run
      ])
        ≡ ok run'
      → total run' ≡ suc (total run)
  updated-some step e none run run' h = cc
  updated-some step e (some row) run run' h =
      replace_row-total row (mark_row p d batch src step e row) run run' h

  apply_updated-total :
      (step : Planned) (e : Event) (run run' : Run)
      → apply_updated p d batch src step e run ≡ ok run'
      → total run' ≡ suc (total run)
  unfolding apply_updated
  apply_updated-total step e run run' h =
      let (flushed, first, h1) = >>=-eq-ok (flush_created d run) _ h in
      let (made, converted, h2) =
        >>=-eq-ok (event_to_memory_record d (payload_fields e.payload)) _ h1 in
      updated-some step e made flushed run' h2 ∙ ap suc (flush_created-total d run flushed first)

  apply_deleted-total :
      (step : Planned) (e : Event) (run run' : Run)
      → apply_deleted p d batch src step e run ≡ ok run'
      → total run' ≡ suc (total run)
  unfolding apply_deleted
  apply_deleted-total step e run run' h =
      let (flushed, first, h1) = >>=-eq-ok (flush_created d run) _ h in
      ap total (ok-injective h1)
      ∙ count_applied-total
          (delete_memory_row (to_str p (get "id" (payload_fields e.payload))) flushed.target.rows).1
          _
      ∙ ap suc (flush_created-total d run flushed first)

  apply_step-total :
      (disposition : Disposition) (step : Planned) (e : Event) (run run' : Run)
      → IsNamed disposition e
      → apply_disposition p d batch src disposition step e run ≡ ok run'
      → total run' ≡ weight disposition + total run
  unfolding apply_disposition apply_skipped
  apply_step-total observational step e run run' named h = ap total (ok-injective h) ∙ omega arith
  apply_step-total skip_idempotent step e run run' named h = ap total (ok-injective h) ∙ omega arith
  apply_step-total skip_legacy_deduped step e run run' named h =
      ap total (ok-injective h) ∙ omega arith
  apply_step-total apply_create step e run run' named h =
      let one = apply_created-total step e run run' named h in omega arith
  apply_step-total apply_update step e run run' named h =
      let one = apply_updated-total step e run run' h in omega arith
  apply_step-total apply_delete step e run run' named h =
      let one = apply_deleted-total step e run run' h in omega arith

  pub apply_planned-total :
      (steps : List Planned) (events : List Event) (run run' : Run)
      → AllNamed steps events
      → apply_planned p d batch src steps events run ≡ ok run'
      → total run' ≡ to_count steps + total run
  unfolding apply_planned
  apply_planned-total [] [] run run' named h = ap total (ok-injective h) ∙ omega arith
  apply_planned-total [] (e ∷ events) run run' named h = absurd named
  apply_planned-total (step ∷ steps) [] run run' named h = absurd named
  apply_planned-total (step ∷ steps) (e ∷ events) run run' (here, others) h =
      let (next, first, h1) = >>=-eq-ok (apply_step p d batch src step e run) _ h in
      let one = apply_step-total step.disposition step e run next here first in
      let more = apply_planned-total steps events next run' others h1 in omega arith
