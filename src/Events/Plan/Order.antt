-- ===== src/Events/Plan/Order.antt =====
-- The order of the steps of a plan.
use mathlib.Core.Path.{subst}
use hot_mem.Prelude.{
  String, ◌≡◌, sym, ap, false, List, [], ◌∷◌, ℕ, ◌<◌, ok-injective, ok, >>=-eq-ok,
}
use hot_mem.Policy.Platform.{Platform}
use hot_mem.Events.Types.{Event, Source, Rules}
use hot_mem.Events.State.{Sim}
use hot_mem.Events.Move.{Planned}
use hot_mem.Events.Plan.{plan_header, decide, plan_event, plan_events}
use hot_mem.Events.Header.{Header, check_event}
use hot_mem.Events.Header.Checked.{seq_of, check_event-seq}
use hot_mem.Json.{num}

-- There is one step for each event, with the event's sequence number, and the numbers rise.
abbrev pub Follow : ℕ → List Event → List Planned → Type 0
Follow prev [] [] = Unit
Follow prev [] (step ∷ steps) = ⊥
Follow prev (e ∷ events) [] = ⊥
Follow prev (e ∷ events) (step ∷ steps) =
    (e.seq ≡ num false step.seq 0) × (prev < step.seq) × Follow step.seq events steps

module _ (p : Platform) (rules : Rules) (types : List String) (src : Source) where
  plan_header-seq :
      (e : Event) (s : Sim) (header : Header) (step : Planned) (t : Sim)
      → plan_header p rules src e s header ≡ ok (step, t)
      → step.seq ≡ seq_of header
  unfolding plan_header
  plan_header-seq e s (Header.observational seq) step t h = ap (λ x. x.0.seq) (ok-injective h)
  plan_header-seq e s (Header.reconstructing env) step t h =
      let ((img, move), decided, h1) = >>=-eq-ok (decide p rules env.kind src e env s) _ h in
      ap (λ x. x.0.seq) (ok-injective h1)

  plan_event-seq :
      (prev : ℕ) (e : Event) (s : Sim) (step : Planned) (t : Sim)
      → plan_event p rules types src prev e s ≡ ok (step, t)
      → (e.seq ≡ num false step.seq 0) × (prev < step.seq)
  unfolding plan_event
  plan_event-seq prev e s step t h =
      let (header, checked, h1) =
        >>=-eq-ok (check_event p types src prev e) (plan_header p rules src e s) h in
      rw (plan_header-seq e s header step t h1) (check_event-seq p types src e prev header checked)

  -- The first pass, when it accepts the events, plans one step for each, in their order, with the
  -- event's sequence number, and the numbers rise strictly from the one that it starts after.
  pub plan_events-Follow :
      (prev : ℕ) (events : List Event) (s : Sim) (steps : List Planned) (t : Sim)
      → plan_events p rules types src prev events s ≡ ok (steps, t)
      → Follow prev events steps
  unfolding plan_events
  plan_events-Follow prev [] s steps t h =
      subst (Follow prev []) (sym (ap (λ x. x.0) (ok-injective h))) tt
  plan_events-Follow prev (e ∷ events) s steps t h =
      let ((step, s1), planned, h1) = >>=-eq-ok (plan_event p rules types src prev e s) _ h in
      let ((later, t1), rest, h2) =
        >>=-eq-ok (plan_events p rules types src step.seq events s1) _ h1 in
      let (numbered, rises) = plan_event-seq prev e s step s1 planned in
      subst (Follow prev (e ∷ events)) (sym (ap (λ x. x.0) (ok-injective h2)))
        (numbered, rises, plan_events-Follow step.seq events s1 later t1 rest)
