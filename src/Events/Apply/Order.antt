-- ===== src/Events/Apply/Order.antt =====
-- The second pass finds for each event the step that the first pass has planned for it.
use hot_mem.Prelude.{
  ℕ, ◌≤◌, ◌==◌, ◌≡◌, refl, false, none, some, List, [], ◌∷◌, arith, Result, ok, err, ◌>>=◌,
}
use hot_mem.Json.{num}
use hot_mem.Policy.Platform.{Platform}
use hot_mem.Events.Types.{Event, Source}
use hot_mem.Events.Move.{Planned}
use hot_mem.Events.Target.{Driver}
use hot_mem.Events.Plan.Order.{Follow}
use hot_mem.Events.Apply.{Run, plan_by_seq, planned_step, apply_step, apply_events, apply_planned}

plan_by_seq-after :
    (prev n : ℕ) (events : List Event) (steps : List Planned)
    → Follow prev events steps
    → n ≤ prev
    → plan_by_seq steps n ≡ none
unfolding plan_by_seq
plan_by_seq-after prev n [] [] f le = refl
plan_by_seq-after prev n [] (step ∷ steps) f le = absurd f
plan_by_seq-after prev n (e ∷ events) [] f le = absurd f
plan_by_seq-after prev n (e ∷ events) (step ∷ steps) (numbered, rises, rest) le =
    let ih = plan_by_seq-after step.seq n events steps rest (omega arith) in
    let apart : (step.seq == n) ≡ false = ground arith in rw (ih, apart) refl

-- The dictionary has what the steps have.
abbrev Covers : List Planned → List Planned → Type 0
Covers all steps = (n : ℕ) (s : Planned) → plan_by_seq steps n ≡ some s → plan_by_seq all n ≡ some s

planned_step-num :
    (all : List Planned) (e : Event) (step : Planned)
    → e.seq ≡ num false step.seq 0
    → plan_by_seq all step.seq ≡ some step
    → planned_step all e ≡ ok step
planned_step-num all e step numbered found = rw (numbered, found, planned_step) refl

>>=-same :
    {E A B : Type 0} (m : Result E A) (f g : A → Result E B)
    → ((a : A) → f a ≡ g a)
    → (m >>= f) ≡ (m >>= g)
>>=-same (ok a) f g h = h a
>>=-same (err e) f g h = refl

module _ (p : Platform) (d : Driver) (batch : ℕ) (src : Source) where
  apply_events-covered :
      (all : List Planned) (prev : ℕ) (events : List Event) (steps : List Planned) (run : Run)
      → Follow prev events steps
      → Covers all steps
      → apply_events p d batch src all events run ≡ apply_planned p d batch src steps events run
  unfolding apply_events apply_planned plan_by_seq
  apply_events-covered all prev [] [] run f covers = refl
  apply_events-covered all prev [] (step ∷ steps) run f covers = refl
  apply_events-covered all prev (e ∷ events) [] run f covers = absurd f
  apply_events-covered all prev (e ∷ events) (step ∷ steps) run (numbered, rises, rest) covers =
      let none_later = plan_by_seq-after step.seq step.seq events steps rest (omega arith) in
      let head : plan_by_seq (step ∷ steps) step.seq ≡ some step = ground arith in
      let found : planned_step all e ≡ ok step =
        planned_step-num all e step numbered (covers step.seq step head) in
      let ih : (next : Run)
          → apply_events p d batch src all events next
            ≡ apply_planned p d batch src steps events next =
        λ next.
          apply_events-covered all step.seq events steps next rest
            (λ n s h. covers n s (rw h refl)) in
      rw found (
        >>=-same (apply_step p d batch src step e run) (apply_events p d batch src all events)
          (apply_planned p d batch src steps events) ih)

  -- When each step of a plan has the sequence number of its event and the numbers rise, the second
  -- pass, which looks up each event's step in the dictionary by sequence number, applies to each
  -- event the step that was planned for it.
  pub apply_events-Follow :
      (prev : ℕ) (events : List Event) (steps : List Planned) (run : Run)
      → Follow prev events steps
      → apply_events p d batch src steps events run ≡ apply_planned p d batch src steps events run
  apply_events-Follow prev events steps run f =
      apply_events-covered steps prev events steps run f (λ n s h. h)
