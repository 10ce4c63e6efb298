-- ===== src/Events/Range/Tombs.antt =====
-- After a replay the target has the tombstones of the simulated target.
use mathlib.Core.Path.{subst}
use hot_mem.Prelude.{ℕ, String, ◌≡◌, sym, ap, ◌∙◌, List, [], ◌∷◌, ok, >>=-eq-ok, ok-injective}
use hot_mem.Json.{get}
use hot_mem.Policy.Platform.{Platform, to_str}
use hot_mem.Events.Types.{Event, Source, Rules}
use hot_mem.Events.State.{Sim}
use hot_mem.Events.Header.{Header, check_event}
use hot_mem.Events.Header.Checked.{check_event-IsAccepted}
use hot_mem.Events.Move.{Planned}
use hot_mem.Events.Plan.{decide, plan_header, plan_event, plan_events}
use hot_mem.Events.Plan.Order.{plan_events-Follow}
use hot_mem.Events.Target.{Driver, Target}
use hot_mem.Events.Apply.{
  Run, payload_fields, flush_created, apply_disposition, apply_step, apply_events, apply_planned,
}
use hot_mem.Events.Apply.Order.{apply_events-Follow}
use hot_mem.Events.Apply.Tombs.{Agrees, apply_step-advance, flush_created-tombs}
use hot_mem.Events.Range.{replay_batch, fresh_run, second_pass}

module _ (p : Platform) (rules : Rules) (d : Driver) (types : List String) (src : Source)
    (id : String) where
  abbrev Same : Run → Sim → Type 0
  Same run s = Agrees (run.target.tombs id) (s.tombs id)

  plan_header-Same :
      (prev : ℕ) (e : Event) (s : Sim) (header : Header) (step : Planned) (s1 : Sim)
      (run run' : Run)
      → check_event p types src prev e ≡ ok header
      → plan_header p rules src e s header ≡ ok (step, s1)
      → apply_step p d replay_batch src step e run ≡ ok run'
      → Same run s
      → Same run' s1
  unfolding plan_header apply_disposition
  plan_header-Same prev e s (Header.observational seq) step s1 run run' checked h applied agrees =
      let both = ok-injective h in
      let applied' =
        subst (λ (x : Planned). apply_step p d replay_batch src x e run ≡ ok run')
          (ap (λ (x : Planned × Sim). x.0) both) applied in
      let at = subst (λ (r : Run). Same r s) (sym (ok-injective applied')) agrees in
      subst (Same run') (sym (ap (λ (x : Planned × Sim). x.1) both)) at
  plan_header-Same prev e s (Header.reconstructing env) step s1 run run' checked h applied agrees =
      let ((img, move), decided, h1) = >>=-eq-ok (decide p rules env.kind src e env s) _ h in
      let both = ok-injective h1 in
      let a = check_event-IsAccepted p types src e prev env checked in
      let is : to_str p (get "id" (payload_fields e.payload)) ≡ env.id =
        ap (λ v. to_str p (get "id" (payload_fields v))) a.is_payload ∙ ap (to_str p) a.is_id in
      let applied' =
        subst (λ (x : Planned). apply_step p d replay_batch src x e run ≡ ok run')
          (ap (λ (x : Planned × Sim). x.0) both) applied in
      subst (Same run') (sym (ap (λ (x : Planned × Sim). x.1) both))
        (apply_step-advance p d replay_batch src env img e s run run' id move is applied' agrees)

  plan_events-tombs :
      (prev : ℕ) (events : List Event) (s s' : Sim) (steps : List Planned) (run run' : Run)
      → plan_events p rules types src prev events s ≡ ok (steps, s')
      → apply_planned p d replay_batch src steps events run ≡ ok run'
      → Same run s
      → Same run' s'
  unfolding plan_events plan_event apply_planned
  plan_events-tombs prev [] s s' steps run run' h applied agrees =
      let both = ok-injective h in
      let applied' =
        subst (λ (l : List Planned). apply_planned p d replay_batch src l [] run ≡ ok run')
          (ap (λ (x : List Planned × Sim). x.0) both) applied in
      subst (Same run') (sym (ap (λ (x : List Planned × Sim). x.1) both))
        (subst (λ (r : Run). Same r s) (sym (ok-injective applied')) agrees)
  plan_events-tombs prev (e ∷ events) s s' steps run run' h applied agrees =
      let ((step, s1), planned, h1) = >>=-eq-ok (plan_event p rules types src prev e s) _ h in
      let (header, checked, stepped) =
        >>=-eq-ok (check_event p types src prev e) (plan_header p rules src e s) planned in
      let ((later, t1), rest, h2) =
        >>=-eq-ok (plan_events p rules types src step.seq events s1) _ h1 in
      let both = ok-injective h2 in
      let applied' =
        subst
          (λ (l : List Planned). apply_planned p d replay_batch src l (e ∷ events) run ≡ ok run')
          (ap (λ (x : List Planned × Sim). x.0) both) applied in
      let (next, first, h3) =
        >>=-eq-ok (apply_step p d replay_batch src step e run)
          (apply_planned p d replay_batch src later events) applied' in
      let here = plan_header-Same prev e s header step s1 run next checked stepped first agrees in
      subst (Same run') (sym (ap (λ (x : List Planned × Sim). x.1) both))
        (plan_events-tombs step.seq events s1 t1 later next run' rest h3 here)

  -- When the first pass accepts the events and the second pass over its steps succeeds, the target has
  -- a tombstone of an id exactly if the simulated target has one, with the same sequence number and
  -- fingerprint, provided that this was so of the target and the simulated target before.
  pub second_pass-Agrees :
      (events : List Event) (s s' : Sim) (steps : List Planned) (t : Target) (run : Run)
      → plan_events p rules types src 0 events s ≡ ok (steps, s')
      → second_pass p rules d src steps events t ≡ ok run
      → Agrees (t.tombs id) (s.tombs id)
      → Agrees (run.target.tombs id) (s'.tombs id)
  unfolding second_pass
  second_pass-Agrees events s s' steps t run planned h agrees =
      let follow = plan_events-Follow p rules types src 0 events s steps s' planned in
      let (last, looped, h1) =
        >>=-eq-ok (apply_events p d replay_batch src steps events (fresh_run t)) (flush_created d)
          h in
      let each =
        sym (apply_events-Follow p d replay_batch src 0 events steps (fresh_run t) follow)
        ∙ looped in
      let after = plan_events-tombs 0 events s s' steps (fresh_run t) last planned each agrees in
      let kept = ap (λ m. m id) (flush_created-tombs d last run h1) in
      subst (λ o. Agrees o (s'.tombs id)) (sym kept) after
