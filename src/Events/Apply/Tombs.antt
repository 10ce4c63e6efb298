-- ===== src/Events/Apply/Tombs.antt =====
-- The second pass writes the tombstones that the first pass has simulated.
use mathlib.Core.Path.{subst}
use hot_mem.Prelude.{
  ℕ, String, sym, if◌then◌else◌, ◌=ₛ◌, ◌≡◌, refl, ap, ◌∙◌, inl, inr, Bool, true, false, Option,
  none, some, List, [], ◌∷◌, ◌++◌, length, leb, is_empty, Result, ok, err, >>=-eq-ok, ok-injective,
  Bool-cases,
}
use hot_mem.Json.{get}
use hot_mem.Policy.Platform.{Platform, to_str}
use hot_mem.Delta.Store.{Row, get_memory}
use hot_mem.Events.Types.{Event, Source}
use hot_mem.Events.Header.{Envelope}
use hot_mem.Events.Image.{Image}
use hot_mem.Events.Plan.{advance, planned}
use hot_mem.Events.State.{Map, put_at, Mark, Tomb, Sim}
use hot_mem.Events.Move.{Move, skip, skip_deduped, dedupe, create, update, delete, Planned}
use hot_mem.Events.Target.{
  TombRow, set_replay_watermark, Driver, Raised, Target, insert_many_ignore, event_to_memory_record,
  replace_memory_record, conversion, delete_memory_row,
}
use hot_mem.Events.Apply.{
  tombstone_of, Pending, Run, page_rows, flush_page, flush_created, payload_fields, apply_skipped,
  apply_created, apply_updated, apply_deleted, apply_disposition, apply_step, enqueue, mark_row,
  replace_row, count_applied,
}

-- The tombstone of the target and the simulated one have the same number and fingerprint, or
-- neither is there.
abbrev pub Agrees : Option TombRow → Option Tomb → Type 0
Agrees none none = Unit
Agrees none (some b) = ⊥
Agrees (some a) none = ⊥
Agrees (some a) (some b) =
    (a.deleted_at_seq ≡ b.deleted_at_seq) × (a.record_fingerprint ≡ b.fingerprint)

put_at-Agrees :
    (key id : String) (a : TombRow) (b : Tomb) (m : Map TombRow) (n : Map Tomb)
    → Agrees (some a) (some b)
    → Agrees (m id) (n id)
    → Agrees (put_at key a m id) (put_at key b n id)
put_at-Agrees key id a b m n new old = elim (Bool-cases (key =ₛ id)) [
  | inl same ↦ rw same new
  | inr other ↦ rw other old
]

module _ (d : Driver) where
  pub flush_created-tombs :
      (run run' : Run) → flush_created d run ≡ ok run' → run'.target.tombs ≡ run.target.tombs
  unfolding flush_created flush_page
  flush_created-tombs run run' h = elim (Bool-cases (is_empty run.page)) [
    | inl empty ↦ ap (λ (r : Run). r.target.tombs) (ok-injective (rw empty at h))
    | inr waiting ↦
        let ((t, n), flushed, h1) =
          >>=-eq-ok (flush_page d run.page run.target) _ (rw waiting at h) in
        let ((rows, m), inserted, h2) =
          >>=-eq-ok (insert_many_ignore d (page_rows run.page) run.target.rows) _ flushed in
        ap (λ (r : Run). r.target.tombs) (ok-injective h1)
        ∙ ap (λ (x : Target × ℕ). x.0.tombs) (ok-injective h2)
  ]

module _ (p : Platform) (d : Driver) (batch : ℕ) (src : Source) where
  count_applied-tombs :
      (found : Bool) (run : Run)
      → (count_applied p d batch src found run).target.tombs ≡ run.target.tombs
  count_applied-tombs true run = refl
  count_applied-tombs false run = refl

  enqueue-tombs :
      (created : Pending) (run run' : Run)
      → enqueue p d batch src created run ≡ ok run'
      → run'.target.tombs ≡ run.target.tombs
  unfolding enqueue
  enqueue-tombs created run run' h =
      let waiting : Run = record run { page = run.page ++ created ∷ [] } in
      elim (Bool-cases (leb batch (length waiting.page))) [
        | inl full ↦ flush_created-tombs d waiting run' (rw full at h)
        | inr room ↦ ap (λ (r : Run). r.target.tombs) (ok-injective (rw room at h))
      ]

  created-tombs :
      (made : Option Row) (step : Planned) (e : Event) (run run' : Run)
      → (elim made as (λ x. Result Raised Run) [
        | none ↦ ok run
        | some row ↦
            enqueue p d batch src
              (record { row = row; mark = mark_row p d batch src step e row })
              run
      ])
        ≡ ok run'
      → run'.target.tombs ≡ run.target.tombs
  created-tombs none step e run run' h = ap (λ (r : Run). r.target.tombs) (ok-injective h)
  created-tombs (some row) step e run run' h =
      enqueue-tombs (record { row = row; mark = mark_row p d batch src step e row }) run run' h

  apply_created-tombs :
      (step : Planned) (e : Event) (run run' : Run)
      → apply_created p d batch src step e run ≡ ok run'
      → run'.target.tombs ≡ run.target.tombs
  unfolding apply_created
  apply_created-tombs step e run run' h =
      let (made, converted, h1) =
        >>=-eq-ok (event_to_memory_record d (payload_fields e.payload)) _ h in
      created-tombs made step e run run' h1

  set_if-tombs :
      (found : Bool) (rows : List Row) (id : String) (mark : Mark) (t : Target)
      → (if found then set_replay_watermark id mark (record t { rows = rows }) else t).tombs
        ≡ t.tombs
  set_if-tombs true rows id mark t = refl
  set_if-tombs false rows id mark t = refl

  replace_row-tombs :
      (row : Row) (mark : Mark) (run run' : Run)
      → replace_row p d batch src row mark run ≡ ok run'
      → run'.target.tombs ≡ run.target.tombs
  unfolding replace_row
  replace_row-tombs row mark run run' h =
      let ((rows, found), replaced, h1) =
        >>=-eq-ok (replace_memory_record d row run.target.rows) _ h in
      ap (λ (r : Run). r.target.tombs) (ok-injective h1)
      ∙ count_applied-tombs found _
      ∙ set_if-tombs found rows row.id mark run.target

  updated-tombs :
      (step : Planned) (e : Event) (made : Option Row) (run run' : Run)
      → (elim made as (λ x. Result Raised Run) [
        | none ↦ err conversion
        | some row ↦ replace_row p d batch src row (mark_row p d batch src step e row) run
      ])
        ≡ ok run'
      → run'.target.tombs ≡ run.target.tombs
  updated-tombs step e none run run' h = cc
  updated-tombs step e (some row) run run' h =
      replace_row-tombs row (mark_row p d batch src step e row) run run' h

  apply_updated-tombs :
      (step : Planned) (e : Event) (run run' : Run)
      → apply_updated p d batch src step e run ≡ ok run'
      → run'.target.tombs ≡ run.target.tombs
  unfolding apply_updated
  apply_updated-tombs step e run run' h =
      let (flushed, first, h1) = >>=-eq-ok (flush_created d run) _ h in
      let (made, converted, h2) =
        >>=-eq-ok (event_to_memory_record d (payload_fields e.payload)) _ h1 in
      updated-tombs step e made flushed run' h2 ∙ flush_created-tombs d run flushed first

  -- A deletion buries the record of the payload's id under the step's number and fingerprint.
  apply_deleted-tombs :
      (step : Planned) (e : Event) (run run' : Run)
      → apply_deleted p d batch src step e run ≡ ok run'
      → (tomb : TombRow) × (tomb.deleted_at_seq ≡ step.seq)
        × (tomb.record_fingerprint ≡ step.fingerprint)
        × (run'.target.tombs
            ≡ put_at (to_str p (get "id" (payload_fields e.payload))) tomb run.target.tombs)
  unfolding apply_deleted
  apply_deleted-tombs step e run run' h =
      let (flushed, first, h1) = >>=-eq-ok (flush_created d run) _ h in
      let id = to_str p (get "id" (payload_fields e.payload)) in
      let tomb = tombstone_of p d batch src step e (get_memory id flushed.target.rows) in
      (
        tomb,
        refl,
        refl,
        ap (λ (r : Run). r.target.tombs) (ok-injective h1)
            ∙ count_applied-tombs (delete_memory_row id flushed.target.rows).1 _
            ∙ ap (put_at id tomb) (flush_created-tombs d run flushed first),
      )

  module _ (env : Envelope) (img : Image) (e : Event) (s : Sim) (run run' : Run) (id : String) where
    abbrev pub Keeps : Move → Type 0
    Keeps move =
        (to_str p (get "id" (payload_fields e.payload)) ≡ env.id)
        → apply_step p d batch src (planned p env img move) e run ≡ ok run'
        → Agrees (run.target.tombs id) (s.tombs id)
        → Agrees (run'.target.tombs id) ((advance p src env img move s).tombs id)

    same-tombs :
        run'.target.tombs ≡ run.target.tombs
        → Agrees (run.target.tombs id) (s.tombs id)
        → Agrees (run'.target.tombs id) (s.tombs id)
    same-tombs same = subst (λ (m : Map TombRow). Agrees (m id) (s.tombs id)) (sym same)

    pub apply_step-advance : (move : Move) → Keeps move
    unfolding apply_disposition apply_skipped advance
    apply_step-advance skip is h agrees =
        same-tombs (ap (λ (r : Run). r.target.tombs) (ok-injective h)) agrees
    apply_step-advance skip_deduped is h agrees =
        same-tombs (ap (λ (r : Run). r.target.tombs) (ok-injective h)) agrees
    apply_step-advance dedupe is h agrees =
        same-tombs (ap (λ (r : Run). r.target.tombs) (ok-injective h)) agrees
    apply_step-advance create is h agrees =
        same-tombs (apply_created-tombs (planned p env img create) e run run' h) agrees
    apply_step-advance (update old) is h agrees =
        same-tombs (apply_updated-tombs (planned p env img (update old)) e run run' h) agrees
    apply_step-advance (delete old time) is h agrees =
        let (tomb, number, print, same) =
          apply_deleted-tombs (planned p env img (delete old time)) e run run' h in
        subst
          (λ (m : Map TombRow).
            Agrees (m id) ((advance p src env img (delete old time) s).tombs id))
          (sym same)
          (subst
            (λ key.
              Agrees (put_at key tomb run.target.tombs id)
                ((advance p src env img (delete old time) s).tombs id))
            (sym is)
            (put_at-Agrees env.id id tomb _ run.target.tombs s.tombs (number, print) agrees))
