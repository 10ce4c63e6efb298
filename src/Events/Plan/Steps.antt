-- ===== src/Events/Plan/Steps.antt =====
-- The steps of a plan as a relation, and induction on a plan.
use mathlib.Core.Path.{subst}
use hot_mem.Prelude.{
  String, ◌≡◌, sym, ap, ◌⊎◌, inl, inr, List, [], ◌∷◌, ℕ, ok, >>=-eq-ok, ok-injective,
}
use hot_mem.Policy.Platform.{Platform}
use hot_mem.Events.Types.{Event, Source, Rules}
use hot_mem.Events.Header.{Envelope, Header, check_event}
use hot_mem.Events.Header.Checked.{IsAccepted, check_event-IsAccepted}
use hot_mem.Events.Image.{Image}
use hot_mem.Events.State.{Sim}
use hot_mem.Events.Move.{Move, Planned}
use hot_mem.Events.Plan.{advance, decide, plan_header, plan_event, plan_events}
use hot_mem.Events.Plan.Justified.{Justified, Hashed, decide-Justified}

module _ (p : Platform) (rules : Rules) (types : List String) (src : Source) where
  -- A step leaves the state, or makes a move that the state justifies.
  abbrev pub Moved : Event → Sim → Sim → Type 0
  Moved e s t =
      (t ≡ s)
      ⊎ ((env : Envelope) × (img : Image) × (move : Move) × IsAccepted p types src e env
          × Justified p env s img move
          × Hashed p env s img move
          × (t ≡ advance p src env img move s))

  plan_header-Moved :
      (prev : ℕ) (e : Event) (s : Sim) (header : Header) (step : Planned) (t : Sim)
      → check_event p types src prev e ≡ ok header
      → plan_header p rules src e s header ≡ ok (step, t)
      → Moved e s t
  unfolding plan_header
  plan_header-Moved prev e s (Header.observational seq) step t checked h =
      inl (ap (λ x. x.1) (ok-injective h))
  plan_header-Moved prev e s (Header.reconstructing env) step t checked h =
      let ((img, move), decided, h1) = >>=-eq-ok (decide p rules env.kind src e env s) _ h in
      let (just, hashed) = decide-Justified p rules env env.kind src e s img move decided in
      inr (
        env,
        img,
        move,
        check_event-IsAccepted p types src e prev env checked,
        just,
        hashed,
        ap (λ x. x.1) (ok-injective h1),
      )

  pub plan_event-Moved :
      (prev : ℕ) (e : Event) (s : Sim) (step : Planned) (t : Sim)
      → plan_event p rules types src prev e s ≡ ok (step, t)
      → Moved e s t
  unfolding plan_event
  plan_event-Moved prev e s step t h =
      let (header, checked, h1) =
        >>=-eq-ok (check_event p types src prev e) (plan_header p rules src e s) h in
      plan_header-Moved prev e s header step t checked h1

  Moved-keeps :
      {K : Sim → Type 0} {e : Event} {s t : Sim}
      (keep : (env : Envelope) (img : Image) (move : Move) (s : Sim)
        → Justified p env s img move
        → Hashed p env s img move
        → K s
        → K (advance p src env img move s))
      → Moved e s t
      → K s
      → K t
  Moved-keeps {K} {e} {s} keep (inl same) k = subst K (sym same) k
  Moved-keeps {K} {e} {s} keep (inr (env, img, move, accepted, just, hashed, same)) k =
      subst K (sym same) (keep env img move s just hashed k)

  -- What every justified move keeps, a plan keeps.
  pub plan_events-keeps :
      {K : Sim → Type 0}
      (keep : (env : Envelope) (img : Image) (move : Move) (s : Sim)
        → Justified p env s img move
        → Hashed p env s img move
        → K s
        → K (advance p src env img move s))
      (prev : ℕ) (events : List Event) (s : Sim) (steps : List Planned) (t : Sim)
      → plan_events p rules types src prev events s ≡ ok (steps, t)
      → K s
      → K t
  unfolding plan_events
  plan_events-keeps {K} keep prev [] s steps t h k =
      subst K (sym (ap (λ x. x.1) (ok-injective h))) k
  plan_events-keeps {K} keep prev (e ∷ events) s steps t h k =
      let ((step, s1), planned, h1) = >>=-eq-ok (plan_event p rules types src prev e s) _ h in
      let ((later, t1), rest, h2) =
        >>=-eq-ok (plan_events p rules types src step.seq events s1) _ h1 in
      subst K (sym (ap (λ x. x.1) (ok-injective h2))) (
        plan_events-keeps keep step.seq events s1 later t1 rest
          (Moved-keeps keep (plan_event-Moved prev e s step s1 planned) k))
