-- ===== src/Lifecycle.antt =====
-- src/hotmem/lifecycle.py: the promotion states of a memory and their transitions.
pub mod History
mod Tests
use hot_mem.Prelude.{
  ℕ, String, ◌≡◌, ◌≢◌, Bool, true, false, ◌&&◌, ◌||◌, not, Option, none, some, List, [], ◌∷◌,
  if◌then◌else◌, contains, ◌=ₛ◌, Result, ok, err, ◌>>=◌,
}
use hot_mem.Policy.Context.{or_text}

-- The columns of a memory that this module reads and writes.
pub record Memory : Type 0 where
  pub id : String
  pub promotion_state : String
  pub promotion_candidate : Bool

unfoldable pub find_memory : String → List Memory → Option Memory
find_memory key [] = none
find_memory key (m ∷ rest) =
    let found = find_memory key rest in if m.id =ₛ key then some m else found

-- `update_memory_record` of src/hotmem/events.py with one of the two columns given; `none` is an
-- exception, after which the store is the one before the call.
pub record Updater : Type 0 where
  pub update_state : String → String → List Memory → Option (List Memory)
  pub update_candidate : String → Bool → List Memory → Option (List Memory)

abbrev pub promotion_states : List String
promotion_states = "HOT" ∷ "READY" ∷ "PROMOTED" ∷ "ARCHIVED" ∷ []

-- `(a, b) in VALID_TRANSITIONS`
unfoldable pub valid_transition : String → String → Bool
valid_transition a b =
    a =ₛ "HOT" && b =ₛ "READY"
    || a =ₛ "READY" && b =ₛ "PROMOTED"
    || a =ₛ "PROMOTED" && b =ₛ "ARCHIVED"

pub data LifecycleError : Type 0 where
  unknown_state : String → LifecycleError
  not_found : String → LifecycleError
  invalid_transition : String → String → String → LifecycleError
  update_failed : LifecycleError

-- `record.get("promotion_state") or "HOT"`
abbrev pub state_of : Memory → String
state_of m = or_text m.promotion_state "HOT"

abbrev pub or_failed : Option (List Memory) → Result LifecycleError (List Memory)
or_failed none = err update_failed
or_failed (some rows) = ok rows

module _ (u : Updater) where
  abbrev pub transition_from :
      Memory → String → String → List Memory → Result LifecycleError (List Memory)
  transition_from m key to_state rows =
      if not (valid_transition (state_of m) to_state)
      then err (invalid_transition key (state_of m) to_state)
      else or_failed (u.update_state key to_state rows)

  unfoldable pub transition : String → String → List Memory → Result LifecycleError (List Memory)
  transition key to_state rows =
      if not (contains promotion_states to_state)
      then err (unknown_state to_state)
      else elim (find_memory key rows) [
        | none ↦ err (not_found key)
        | some m ↦ transition_from m key to_state rows
      ]

  unfoldable pub mark_candidate : String → Bool → List Memory → Result LifecycleError (List Memory)
  mark_candidate key candidate rows = elim (find_memory key rows) [
    | none ↦ err (not_found key)
    | some m ↦ or_failed (u.update_candidate key candidate rows)
  ]
