-- ===== src/Events/Plan/Permanent.antt =====
-- A tombstone is for good.
use hot_mem.Prelude.{String, ◌≡◌, none, some, List, ℕ, ok}
use hot_mem.Policy.Platform.{Platform}
use hot_mem.Events.Types.{Event, Source, Rules}
use hot_mem.Events.Header.{Envelope}
use hot_mem.Events.Image.{Image}
use hot_mem.Events.State.{Tomb, Sim}
use hot_mem.Events.State.Maps.{keys-differ, put_at-other, drop_at-none}
use hot_mem.Events.Move.{Move, skip, skip_deduped, dedupe, create, update, delete, Planned}
use hot_mem.Events.Plan.{live_of, advance, plan_events}
use hot_mem.Events.Plan.Steps.{plan_events-keeps}
use hot_mem.Events.Plan.Justified.{Justified}

-- The id has this tombstone and is not live.
abbrev pub Buried : String → Tomb → Sim → Type 0
Buried id tomb s = (s.tombs id ≡ some tomb) × (s.live id ≡ none)

module _ (p : Platform) (src : Source) (env : Envelope) (img : Image) (s : Sim) (id : String)
    (tomb : Tomb) where
  advance-Buried :
      (move : Move)
      → Justified p env s img move
      → Buried id tomb s
      → Buried id tomb (advance p src env img move s)
  unfolding advance
  advance-Buried skip j b = b
  advance-Buried skip_deduped j b = b
  advance-Buried dedupe j b = b
  advance-Buried create (unburied, fresh, free) (at, gone) = (
    at,
    put_at-other env.id (live_of p env img) s.live id
        (keys-differ s.tombs id env.id tomb at unburied) gone,
  )
  advance-Buried (update old) just (at, gone) = (
    at,
    put_at-other env.id (live_of p env img) s.live id (keys-differ s.tombs id env.id tomb at just.0)
        gone,
  )
  advance-Buried (delete old time) just (at, gone) = (
    put_at-other env.id _ s.tombs id (keys-differ s.tombs id env.id tomb at just.0) at,
    drop_at-none env.id s.live id λ other. gone,
  )

module _ (p : Platform) (rules : Rules) (types : List String) (src : Source) where
  -- A record that is not live and has a tombstone stays so, with the same tombstone, through the
  -- first pass over any sequence of events that the pass accepts.
  pub plan_events-Buried :
      (prev : ℕ) (events : List Event) (s : Sim) (steps : List Planned) (t : Sim) (id : String)
      (tomb : Tomb)
      → plan_events p rules types src prev events s ≡ ok (steps, t)
      → Buried id tomb s
      → Buried id tomb t
  plan_events-Buried prev events s steps t id tomb h =
      plan_events-keeps p rules types src
        (λ env img move s just hashed. advance-Buried p src env img s id tomb move just) prev events
        s steps t h
