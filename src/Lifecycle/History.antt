-- ===== src/Lifecycle/History.antt =====
-- Which transitions of a memory succeed.
use mathlib.Core.Path.{subst}
use hot_mem.Prelude.{
  String, ◌≡◌, ◌↔◌, refl, sym, ap, ◌∙◌, inl, inr, Bool, true, false, ◌&&◌, ◌||◌, some, List, ◌=ₛ◌,
  eq_iff, contains, Bool-cases, Option-cases, ok, ok-injective,
}
use hot_mem.Prelude.Membership.{or-eq-true}
use hot_mem.Lifecycle.{
  Memory, find_memory, Updater, valid_transition, promotion_states, state_of, transition_from,
  transition,
}

-- The documented order of the states.
pub data Step : String → String → Type 0 where
  ready : Step "HOT" "READY"
  promote : Step "READY" "PROMOTED"
  archive : Step "PROMOTED" "ARCHIVED"

and-eq-true : (a b : Bool) → (a && b) ≡ true → (a ≡ true) × (b ≡ true)
and-eq-true true b h = (refl, h)
and-eq-true false b h = cc

Step-eq : (a b from to : String) → (a =ₛ from && b =ₛ to) ≡ true → Step from to → Step a b
Step-eq a b from to h step =
    let (x, y) = and-eq-true (a =ₛ from) (b =ₛ to) h in
    subst (λ s. Step s b) (sym ((eq_iff a from).0 x))
      (subst (Step from) (sym ((eq_iff b to).0 y)) step)

valid_transition-Step : (a b : String) → valid_transition a b ≡ true → Step a b
unfolding valid_transition
valid_transition-Step a b h =
    elim (or-eq-true (a =ₛ "HOT" && b =ₛ "READY" || a =ₛ "READY" && b =ₛ "PROMOTED") _ h) [
      | inl early ↦ elim (or-eq-true (a =ₛ "HOT" && b =ₛ "READY") _ early) [
        | inl first ↦ Step-eq a b "HOT" "READY" first Step.ready
        | inr second ↦ Step-eq a b "READY" "PROMOTED" second Step.promote
      ]
      | inr third ↦ Step-eq a b "PROMOTED" "ARCHIVED" third Step.archive
    ]

Step-valid :
    {a b : String} → Step a b → (contains promotion_states b ≡ true) × (valid_transition a b ≡ true)
unfolding valid_transition
Step-valid Step.ready = (refl, refl)
Step-valid Step.promote = (refl, refl)
Step-valid Step.archive = (refl, refl)

module _ (u : Updater) (key : String) where
  transition_from-ok :
      (m : Memory) (to_state : String) (rows : List Memory) {rows' : List Memory}
      → transition_from u m key to_state rows ≡ ok rows'
      → Step (state_of m) to_state × (u.update_state key to_state rows ≡ some rows')
  transition_from-ok m to_state rows {rows'} h =
      elim (Bool-cases (valid_transition (state_of m) to_state)) [
        | inr invalid ↦ let raised = rw (invalid, transition_from) at h in cc raised
        | inl valid ↦
            let written = rw (valid, transition_from) at h in
            (
              valid_transition-Step (state_of m) to_state valid,
              elim (Option-cases (u.update_state key to_state rows)) [
                | inl failed ↦ let raised = rw failed at written in cc raised
                | inr (next, done) ↦ done ∙ ap some (sym (ok-injective (rw done at written)))
              ],
            )
      ]

  transition-ok :
      (to_state : String) (rows : List Memory) {rows' : List Memory}
      → transition u key to_state rows ≡ ok rows'
      → (m : Memory) × (find_memory key rows ≡ some m)
        × Step (state_of m) to_state
        × (u.update_state key to_state rows ≡ some rows')
  unfolding transition
  transition-ok to_state rows {rows'} h = elim (Bool-cases (contains promotion_states to_state)) [
    | inr unknown ↦ let raised = rw unknown at h in cc raised
    | inl known ↦ elim (Option-cases (find_memory key rows)) [
      | inl missing ↦ let raised = rw (known, missing, transition) at h in cc raised
      | inr (m, found) ↦
          let (step, done) =
            transition_from-ok m to_state rows (rw (known, found, transition) at h) in
          (m, found, step, done)
    ]
  ]

  -- A transition returns a table exactly when the memory exists, the transition is one of the three
  -- documented steps from its state, where an empty state is `HOT`, and the update of that memory to
  -- the new state returns that table.
  pub transition_iff :
      (to_state : String) (rows rows' : List Memory)
      → (transition u key to_state rows ≡ ok rows') ↔ (
          (m : Memory) × (find_memory key rows ≡ some m)
          × Step (state_of m) to_state
          × (u.update_state key to_state rows ≡ some rows'))
  unfolding transition
  transition_iff to_state rows rows' = (
    λ h. transition-ok to_state rows h,
    λ h.
        let (m, found, step, done) = h in
        let (known, valid) = Step-valid step in rw (known, found) (rw (valid, done) refl),
  )
