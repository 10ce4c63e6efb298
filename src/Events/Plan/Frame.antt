-- ===== src/Events/Plan/Frame.antt =====
-- What a plan leaves alone.
use mathlib.Core.Path.{subst}
use hot_mem.Prelude.{
  String, ◌≡◌, ◌≢◌, refl, sym, ap, ◌∙◌, inl, inr, List, [], ◌∷◌, ℕ, ok, >>=-eq-ok, ok-injective,
}
use hot_mem.Policy.Platform.{Platform}
use hot_mem.Events.Types.{Event, Source, Rules}
use hot_mem.Events.Header.{Envelope}
use hot_mem.Events.Image.{Image}
use hot_mem.Events.State.{Sim}
use hot_mem.Events.Move.{Move, skip, skip_deduped, dedupe, create, update, delete, Planned}
use hot_mem.Events.Plan.{live_of, advance, plan_event, plan_events}
use hot_mem.Json.{obj, str, Fields, get}
use hot_mem.Events.Plan.Steps.{Moved, plan_event-Moved}
use hot_mem.Events.State.Maps.{put_at-other, drop_at-other}

-- No event's payload names the id.
abbrev pub Unnamed : String → List Event → Type 0
Unnamed id [] = Unit
Unnamed id (e ∷ events) =
    ((payload : Fields) → e.payload ≡ obj payload → get "id" payload ≢ str id) × Unnamed id events

-- The id's record and its tombstone are those of the other state.
abbrev pub Same : String → Sim → Sim → Type 0
Same id s t = (t.live id ≡ s.live id) × (t.tombs id ≡ s.tombs id)

advance-Same :
    (p : Platform) (src : Source) (env : Envelope) (img : Image) (s : Sim) (id : String)
    (move : Move)
    → id ≢ env.id
    → Same id s (advance p src env img move s)
unfolding advance
advance-Same p src env img s id skip other = (refl, refl)
advance-Same p src env img s id skip_deduped other = (refl, refl)
advance-Same p src env img s id dedupe other = (refl, refl)
advance-Same p src env img s id create other =
    (put_at-other env.id (live_of p env img) s.live id other refl, refl)
advance-Same p src env img s id (update old) other =
    (put_at-other env.id (live_of p env img) s.live id other refl, refl)
advance-Same p src env img s id (delete old time) other =
    (drop_at-other env.id s.live id other, put_at-other env.id _ s.tombs id other refl)

module _ (p : Platform) (rules : Rules) (types : List String) (src : Source) where
  Moved-Same :
      (e : Event) (s t : Sim) (id : String)
      → ((payload : Fields) → e.payload ≡ obj payload → get "id" payload ≢ str id)
      → Moved p rules types src e s t
      → Same id s t
  Moved-Same e s t id unnamed (inl same) = rw same (refl, refl)
  Moved-Same e s t id unnamed (inr (env, img, move, accepted, just, hashed, same)) = rw same (
      advance-Same p src env img s id move
        λ e. unnamed env.payload accepted.is_payload (accepted.is_id ∙ ap str (sym e)))

  -- The first pass, when it accepts the events, leaves the live record and the tombstone of an id
  -- that the payload of none of them names.
  pub plan_events-Same :
      (prev : ℕ) (events : List Event) (s : Sim) (steps : List Planned) (t : Sim) (id : String)
      → plan_events p rules types src prev events s ≡ ok (steps, t)
      → Unnamed id events
      → Same id s t
  unfolding plan_events
  plan_events-Same prev [] s steps t id h unnamed =
      subst (Same id s) (sym (ap (λ x. x.1) (ok-injective h))) (refl, refl)
  plan_events-Same prev (e ∷ events) s steps t id h (unnamed, others) =
      let ((step, s1), planned, h1) = >>=-eq-ok (plan_event p rules types src prev e s) _ h in
      let ((later, t1), rest, h2) =
        >>=-eq-ok (plan_events p rules types src step.seq events s1) _ h1 in
      let (live, tombs) =
        Moved-Same e s s1 id unnamed
          (plan_event-Moved p rules types src prev e s step s1 planned) in
      let (live_rest, tombs_rest) = plan_events-Same step.seq events s1 later t1 id rest others in
      subst (Same id s) (sym (ap (λ x. x.1) (ok-injective h2)))
        (live_rest ∙ live, tombs_rest ∙ tombs)
