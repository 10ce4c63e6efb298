-- ===== src/Lifecycle/Tests.antt =====
-- Runs of the lifecycle on an updater of lists, and its theorems at concrete inputs.
use hot_mem.Prelude.{
  String, ◌≡◌, ◌↔◌, refl, false, some, List, [], ◌∷◌, ◌=ₛ◌, if◌then◌else◌, ok, err,
}
use hot_mem.Lifecycle.{
  Memory, find_memory, Updater, valid_transition, state_of, invalid_transition, transition,
  mark_candidate,
}
use hot_mem.Lifecycle.History.{Step, transition_iff}

abbrev change : String → (Memory → Memory) → List Memory → List Memory
change key f [] = []
change key f (m ∷ rest) =
    let later = change key f rest in if m.id =ₛ key then f m ∷ later else m ∷ later

abbrev in_memory : Updater
in_memory = record {
  update_state =
      λ key state rows. some (change key (λ m. record m { promotion_state = state }) rows);
  update_candidate =
      λ key mark rows. some (change key (λ m. record m { promotion_candidate = mark }) rows);
}

abbrev memory : String → String → Memory
memory id state = record { id = id; promotion_state = state; promotion_candidate = false }

abbrev before : List Memory
before = memory "m1" "" ∷ memory "m2" "READY" ∷ []

program : Unit {0}
unfolding find_memory valid_transition transition mark_candidate
program = tt

step_test :
    transition in_memory "m1" "READY" before ≡ ok (memory "m1" "READY" ∷ memory "m2" "READY" ∷ [])
unfolding program
step_test = refl

invalid_test :
    transition in_memory "m1" "PROMOTED" before ≡ err (invalid_transition "m1" "HOT" "PROMOTED")
unfolding program
invalid_test = refl

transition_iff_example :
    let after = memory "m1" "READY" ∷ memory "m2" "READY" ∷ [] in
    (transition in_memory "m1" "READY" before ≡ ok after) ↔ (
      (m : Memory) × (find_memory "m1" before ≡ some m)
      × Step (state_of m) "READY"
      × (in_memory.update_state "m1" "READY" before ≡ some after))
transition_iff_example =
    transition_iff in_memory "m1" "READY" before (memory "m1" "READY" ∷ memory "m2" "READY" ∷ [])
