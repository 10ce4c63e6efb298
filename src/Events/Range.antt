-- ===== src/Events/Range.antt =====
-- `apply_event_range` of src/hotmem/events.py: both passes, and the transaction around the second.
pub mod Outcome
pub mod Tombs
use hot_mem.Prelude.{
  ℕ, String, Bool, not, List, [], ◌∷◌, any, contains, if◌then◌else◌, Result, ok, err, ◌>>=◌,
}
use hot_mem.Policy.Platform.{Platform}
use hot_mem.Events.Types.{Event, Source, Rules, ReplayError, reconstructing_event_types}
use hot_mem.Events.State.{Sim}
use hot_mem.Events.Move.{Planned}
use hot_mem.Events.Plan.{plan_events}
use hot_mem.Events.Candidates.{load_candidates}
use hot_mem.Events.Target.{Driver, Raised, Target}
use hot_mem.Events.Apply.{Run, flush_created, apply_events}

-- What `apply_event_range` raises: the scope is not one of reconstructing types, an event is refused,
-- or the second pass fails.
pub data ReplayFailure : Type 0 where
  non_reconstructing : ReplayFailure
  refused : ReplayError → ReplayFailure
  failed : Raised → ReplayFailure

abbrev pub replay_batch : ℕ
replay_batch = 1000

abbrev pub fresh_run : Target → Run
fresh_run t = record { target = t; page = []; applied = 0; skipped = 0 }

module _ (p : Platform) (rules : Rules) (d : Driver) (src : Source) where
  -- The body of the `try`.
  unfoldable pub second_pass : List Planned → List Event → Target → Result Raised Run
  second_pass steps events t =
      apply_events p d replay_batch src steps events (fresh_run t) >>= flush_created d

  -- A commit keeps the target of the run, a rollback the one before it.
  abbrev pub commit_or_rollback : Target → Result Raised Run → Target × Result ReplayFailure (ℕ × ℕ)
  commit_or_rollback t (ok run) = (run.target, ok (run.applied, run.skipped))
  commit_or_rollback t (err e) = (t, err (failed e))

  abbrev pub after_plan :
      List Event
      → Target
      → Result ReplayError (List Planned × Sim)
      → Target × Result ReplayFailure (ℕ × ℕ)
  after_plan events t (err e) = (t, err (refused e))
  after_plan events t (ok (steps, s)) = commit_or_rollback t (second_pass steps events t)

  unfoldable pub apply_event_range :
      List String → List Event → Target → Target × Result ReplayFailure (ℕ × ℕ)
  apply_event_range types events t =
      if any (λ etype. not (contains reconstructing_event_types etype)) types
      then (t, err non_reconstructing)
      else after_plan events t
          (plan_events p rules types src 0 events (load_candidates p rules events t))
