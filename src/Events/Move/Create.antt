-- ===== src/Events/Move/Create.antt =====
-- The decision on a `memory.created` event, in `_validate_and_plan_event_step` of
-- src/hotmem/events.py.
use hot_mem.Prelude.{◌≡◌, arith, false, ◌&&◌, not, none, some, if◌then◌else◌, ◌=ₛ◌, Result, ok, err}
use hot_mem.Events.Types.{ReplayError, Source}
use hot_mem.Events.Header.{Envelope}
use hot_mem.Events.Image.{Image}
use hot_mem.Events.State.{Sim}
use hot_mem.Events.Move.{
  Move, skip, dedupe, create, caught_up, buried, held_by_other, failure, same_state, Unburied,
}

unfoldable pub decide_create : Source → Envelope → Image → Sim → Result ReplayError Move
decide_create src env img s = elim (s.tombs env.id) [
  | some tomb ↦
      if buried src env tomb && not (s.created env.id)
      then ok skip
      else err (failure "tombstoned_record_resurrection" env)
  | none ↦ elim (s.live env.id) [
    | some live ↦
        if not (live.namespace =ₛ env.namespace)
        then err (failure "identity_mismatch" env)
        else if not env.is_v1 && live.content_hash =ₛ img.content_hash
        then ok skip
        else if same_state live img
        then ok skip
        else if caught_up src env live s
        then ok skip
        else err (failure "identity_mismatch" env)
    | none ↦
        if held_by_other env img.content_hash s
        then if env.is_v1 then err (failure "identity_mismatch" env) else ok dedupe
        else ok create
  ]
]

module _ (src : Source) (env : Envelope) (img : Image) (s : Sim) where
  pub decide_create-raw :
      decide_create src env img s ≡ ok create
      → Unburied env s × (s.live env.id ≡ none) × (held_by_other env img.content_hash s ≡ false)
  unfolding decide_create
  decide_create-raw h = ground arith
