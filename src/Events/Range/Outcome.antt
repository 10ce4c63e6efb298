-- ===== src/Events/Range/Outcome.antt =====
-- The outcomes of a replay of a range of events.
use mathlib.Core.Path.{subst}
use hot_mem.Prelude.{
  ℕ, ◌+◌, String, ◌≡◌, refl, sym, ap, ◌∙◌, inl, inr, true, not, Option, none, some, List, [], ◌∷◌,
  any, contains, arith, Result, ok, err, >>=-eq-ok, ok-injective, Bool-cases,
}
use hot_mem.Json.{str, Fields, get, truthy}
use hot_mem.Policy.Platform.{Platform, str_or_empty}
use hot_mem.Events.Types.{
  Event, Source, Rules, Kind, kind_of, reconstructing_event_types, ReplayError,
}
use hot_mem.Events.State.{Sim}
use hot_mem.Events.Header.{
  Envelope, Header, check_event, check_typed, check_seq, payload_of, replay_error,
}
use hot_mem.Events.Header.Checked.{IsAccepted, check_event-IsAccepted}
use hot_mem.Events.Move.{
  Move, skip, skip_deduped, dedupe, create, update, delete, Planned, Disposition, observational,
  apply_create,
}
use hot_mem.Events.Plan.{decide, disposition_of, plan_header, plan_event, plan_events}
use hot_mem.Events.Plan.Order.{plan_events-Follow}
use hot_mem.Events.Candidates.{load_candidates}
use hot_mem.Events.Target.{Driver, Raised, Target}
use hot_mem.Events.Apply.{Run, payload_fields, flush_created, apply_events}
use hot_mem.Events.Apply.Order.{apply_events-Follow}
use hot_mem.Events.Apply.Counts.{
  weight, to_count, IsNamed, AllNamed, flush_created-total, flush_created-empty,
  apply_planned-total,
}
use hot_mem.Events.Range.{
  ReplayFailure, replay_batch, fresh_run, second_pass, apply_event_range, after_plan,
  commit_or_rollback,
}

module _ (p : Platform) where
  -- 1 for an event of a reconstructing type, and 0 for another.
  abbrev pub kind_weight : Option Kind → ℕ
  kind_weight none = 0
  kind_weight (some kind) = 1

  -- The number of events of reconstructing types.
  abbrev pub reconstructing_count : List Event → ℕ
  reconstructing_count [] = 0
  reconstructing_count (e ∷ events) =
      kind_weight (kind_of (str_or_empty p e.event_type)) + reconstructing_count events

weight-disposition_of : (p : Platform) (move : Move) → weight (disposition_of p move) ≡ 1
weight-disposition_of p skip = refl
weight-disposition_of p skip_deduped = refl
weight-disposition_of p dedupe = refl
weight-disposition_of p create = refl
weight-disposition_of p (update old) = refl
weight-disposition_of p (delete old time) = refl

any-IsNamed :
    (disposition : Disposition) (e : Event)
    → truthy (get "id" (payload_fields e.payload)) ≡ true
    → IsNamed disposition e
any-IsNamed observational e h = tt
any-IsNamed apply_create e h = h
any-IsNamed Disposition.skip_idempotent e h = tt
any-IsNamed Disposition.skip_legacy_deduped e h = tt
any-IsNamed Disposition.apply_update e h = tt
any-IsNamed Disposition.apply_delete e h = tt

module _ (p : Platform) (rules : Rules) (types : List String) (src : Source) where
  IsAccepted-named :
      (e : Event) (env : Envelope)
      → IsAccepted p types src e env
      → truthy (get "id" (payload_fields e.payload)) ≡ true
  unfolding truthy
  IsAccepted-named e env a =
      let fields : get "id" (payload_fields e.payload) ≡ str env.id = rw a.is_payload a.is_id in
      let named = a.is_named in rw fields (rw named refl)

  check_typed-observational :
      (e : Event) (n : ℕ) (payload : Fields) (kind : Option Kind) (seq : ℕ)
      → check_typed p types src e n payload kind ≡ ok (Header.observational seq)
      → kind ≡ none
  unfolding check_typed
  check_typed-observational e n payload none seq h = refl
  check_typed-observational e n payload (some kind) seq h = absurd (ground arith)

  check_event-observational :
      (prev : ℕ) (e : Event) (seq : ℕ)
      → check_event p types src prev e ≡ ok (Header.observational seq)
      → kind_of (str_or_empty p e.event_type) ≡ none
  unfolding check_event
  check_event-observational prev e seq h =
      let event_id = str_or_empty p e.event_id in
      let (n, numbered, h1) = >>=-eq-ok (check_seq prev event_id e.seq) _ h in
      let (payload, read, h2) =
        >>=-eq-ok (payload_of p e.payload (replay_error "malformed_event_payload" n event_id "")) _
          h1 in
      check_typed-observational e n payload (kind_of (str_or_empty p e.event_type)) seq h2

  -- What the plan of an event says of how it is counted.
  abbrev Counted : Event → Planned → Type 0
  Counted e step =
      (weight step.disposition ≡ kind_weight p (kind_of (str_or_empty p e.event_type)))
      × IsNamed step.disposition e

  plan_header-Counted :
      (prev : ℕ) (e : Event) (s : Sim) (header : Header) (step : Planned) (t : Sim)
      → check_event p types src prev e ≡ ok header
      → plan_header p rules src e s header ≡ ok (step, t)
      → Counted e step
  unfolding plan_header
  plan_header-Counted prev e s (Header.observational seq) step t checked h =
      let is = ap (λ (x : Planned × Sim). x.0) (ok-injective h) in
      let kind = check_event-observational prev e seq checked in
      subst (Counted e) (sym is) (ap (kind_weight p) (sym kind), tt)
  plan_header-Counted prev e s (Header.reconstructing env) step t checked h =
      let ((img, move), decided, h1) = >>=-eq-ok (decide p rules env.kind src e env s) _ h in
      let is = ap (λ (x : Planned × Sim). x.0) (ok-injective h1) in
      let a = check_event-IsAccepted p types src e prev env checked in
      subst (Counted e) (sym is) (
        weight-disposition_of p move ∙ ap (kind_weight p) (sym a.is_kind),
        any-IsNamed (disposition_of p move) e (IsAccepted-named e env a),
      )

  plan_event-Counted :
      (prev : ℕ) (e : Event) (s : Sim) (step : Planned) (t : Sim)
      → plan_event p rules types src prev e s ≡ ok (step, t)
      → Counted e step
  unfolding plan_event
  plan_event-Counted prev e s step t h =
      let (header, checked, h1) =
        >>=-eq-ok (check_event p types src prev e) (plan_header p rules src e s) h in
      plan_header-Counted prev e s header step t checked h1

  plan_events-AllNamed :
      (prev : ℕ) (events : List Event) (s : Sim) (steps : List Planned) (t : Sim)
      → plan_events p rules types src prev events s ≡ ok (steps, t)
      → (to_count steps ≡ reconstructing_count p events) × AllNamed steps events
  unfolding plan_events
  plan_events-AllNamed prev [] s steps t h =
      subst (λ l. (to_count l ≡ 0) × AllNamed l [])
        (sym (ap (λ (x : List Planned × Sim). x.0) (ok-injective h))) (refl, tt)
  plan_events-AllNamed prev (e ∷ events) s steps t h =
      let ((step, s1), planned, h1) = >>=-eq-ok (plan_event p rules types src prev e s) _ h in
      let ((later, t1), rest, h2) =
        >>=-eq-ok (plan_events p rules types src step.seq events s1) _ h1 in
      let (counted, named) = plan_event-Counted prev e s step s1 planned in
      let (count, others) = plan_events-AllNamed step.seq events s1 later t1 rest in
      subst (λ l. (to_count l ≡ reconstructing_count p (e ∷ events)) × AllNamed l (e ∷ events))
        (sym (ap (λ (x : List Planned × Sim). x.0) (ok-injective h2)))
        (omega arith, (named, others))

module _ (p : Platform) (rules : Rules) (d : Driver) (src : Source) where
  -- The target is as before, or each event of a reconstructing type is counted once.
  abbrev pub Outcome : List Event → Target → Target × Result ReplayFailure (ℕ × ℕ) → Type 0
  Outcome events t (u, err e) = u ≡ t
  Outcome events t (u, ok (applied, skipped)) = applied + skipped ≡ reconstructing_count p events

  second_pass-counts :
      (types : List String) (events : List Event) (s s' : Sim) (steps : List Planned) (t : Target)
      (run : Run)
      → plan_events p rules types src 0 events s ≡ ok (steps, s')
      → second_pass p rules d src steps events t ≡ ok run
      → run.applied + run.skipped ≡ reconstructing_count p events
  unfolding second_pass
  second_pass-counts types events s s' steps t run planned h =
      let follow = plan_events-Follow p rules types src 0 events s steps s' planned in
      let (count, named) = plan_events-AllNamed p rules types src 0 events s steps s' planned in
      let (last, looped, h1) =
        >>=-eq-ok (apply_events p d replay_batch src steps events (fresh_run t)) (flush_created d)
          h in
      let each =
        sym (apply_events-Follow p d replay_batch src 0 events steps (fresh_run t) follow)
        ∙ looped in
      let sum =
        apply_planned-total p d replay_batch src steps events (fresh_run t) last named each in
      let flushed = flush_created-total d last run h1 in
      let empty = flush_created-empty d last run h1 in omega arith

  commit_or_rollback-Outcome :
      (events : List Event) (t : Target) (done : Result Raised Run)
      → ((run : Run) → done ≡ ok run → run.applied + run.skipped ≡ reconstructing_count p events)
      → Outcome events t (commit_or_rollback p rules d src t done)
  commit_or_rollback-Outcome events t (err e) counts = refl
  commit_or_rollback-Outcome events t (ok run) counts = counts run refl

  after_plan-Outcome :
      (types : List String) (events : List Event) (t : Target) (s : Sim)
      (plan : Result ReplayError (List Planned × Sim))
      → plan_events p rules types src 0 events s ≡ plan
      → Outcome events t (after_plan p rules d src events t plan)
  after_plan-Outcome types events t s (err e) h = refl
  after_plan-Outcome types events t s (ok (steps, s')) h =
      commit_or_rollback-Outcome events t (second_pass p rules d src steps events t)
        (λ run. second_pass-counts types events s s' steps t run h)

  -- A replay of a range of events that raises leaves the target as it was, be it for the scope, for an
  -- event that is refused or for a failure of the second pass; and one that returns has counted every
  -- event of a reconstructing type once, as applied or as skipped, and no other event.
  pub apply_event_range-Outcome :
      (types : List String) (events : List Event) (t : Target)
      → Outcome events t (apply_event_range p rules d src types events t)
  unfolding apply_event_range
  apply_event_range-Outcome types events t =
      elim (Bool-cases (any (λ etype. not (contains reconstructing_event_types etype)) types)) [
        | inl foreign ↦ rw foreign refl
        | inr covered ↦
            let s = load_candidates p rules events t in
            rw covered
              (after_plan-Outcome types events t s (plan_events p rules types src 0 events s) refl)
      ]
