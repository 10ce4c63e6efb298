-- ===== src/Events/Plan.antt =====
-- What a planned event does to the simulated target, and the first pass of a replay, in
-- `_validate_and_plan_event_step` and `apply_event_range` of src/hotmem/events.py. The code decides
-- and changes the dictionaries in one go; here a `Move` says what was decided, and `advance` makes
-- the change.
pub mod Justified
pub mod Grounded
pub mod Steps
pub mod Consistent
pub mod Permanent
pub mod Order
pub mod Frame
use hot_mem.Prelude.{
  ℕ, String, ◌≡◌, refl, ap, ◌∙◌, ◌⊎◌, inl, inr, arith, eq_iff, Bool-cases, Option-cases,
  raise_if-eq-ok, >>=-eq-ok, >>-eq-ok, ok-injective, Bool, true, false, ◌&&◌, ◌||◌, not, Option,
  none, some, List, [], ◌∷◌, if◌then◌else◌, ◌=ₛ◌, leb, Result, ok, err, ◌>>=◌, ◌>>◌, raise_if,
}
use hot_mem.Prelude.Strings.{strip, is_blank}
use hot_mem.Json.{Value, null, str, Fields, get, truthy}
use hot_mem.Policy.Platform.{Platform, to_str, str_or_empty}
use hot_mem.Events.Types.{
  Event, Kind, created, updated, deleted, ReplayError, Source, Rules, compatible, is_text,
}
use hot_mem.Events.Header.{Envelope, Header, none_or, replay_error, check_event}
use hot_mem.Events.Image.{Image, check_image}
use hot_mem.Events.State.{
  put_at, drop_at, add_to, discard, bind_pair, free_pair, Live, Tomb, Mark, Sim,
}
use hot_mem.Events.Move.{
  Move, skip, skip_deduped, dedupe, create, update, delete, Disposition, skip_idempotent,
  skip_legacy_deduped, apply_create, apply_update, apply_delete, observational, Planned, caught_up,
  is_dedupe_marker, buried, held_by_other, failure, same_state, Free, held_by_other-Free, Unburied,
}
use hot_mem.Events.Move.Create.{decide_create, decide_create-raw}
use hot_mem.Events.Move.Update.{
  decide_update, names_base, decide_update_live, decide_update_live-raw, decide_update_live-skip,
  decide_update-cases,
}
use hot_mem.Events.Move.Delete.{
  decide_delete, payload_identifier, expected_hash, expected_fingerprint, decide_delete_at,
  decide_delete_live, deletion_time, decide_delete_live-raw, decide_delete_live-is,
  decide_delete_at-cases,
}

-- `a or b`
abbrev or_text : String → String → String
or_text a b = if is_blank a then b else a

module _ (p : Platform) where
  abbrev pub live_of : Envelope → Image → Live
  live_of env img = record {
    identifier = payload_identifier p env;
    namespace = env.namespace;
    content_hash = img.content_hash;
    fingerprint = img.fingerprint;
  }

  -- The changes of the dictionaries and sets.
  unfoldable pub advance : Source → Envelope → Image → Move → Sim → Sim
  advance src env img skip s = s
  advance src env img skip_deduped s = s
  advance src env img dedupe s = record s { legacy_deduped = add_to env.id s.legacy_deduped }
  advance src env img create s = record s {
    live = put_at env.id (live_of env img) s.live;
    index = bind_pair env.namespace img.content_hash env.id s.index;
    mutated = add_to env.id s.mutated;
    created = add_to env.id s.created;
    legacy_created = if env.is_v1 then s.legacy_created else add_to env.id s.legacy_created;
  }
  advance src env img (update old) s = record s {
    live = put_at env.id (live_of env img) s.live;
    index = bind_pair env.namespace img.content_hash env.id (
        if old.content_hash =ₛ img.content_hash
        then s.index
        else free_pair env.namespace old.content_hash s.index);
    mutated = add_to env.id s.mutated;
    legacy_created = discard env.id s.legacy_created;
  }
  advance src env img (delete old deleted_at) s = record s {
    live = drop_at env.id s.live;
    index = free_pair env.namespace old.content_hash s.index;
    tombs =
        put_at env.id
          (record {
            namespace = env.namespace;
            content_hash = img.content_hash;
            fingerprint = img.fingerprint;
            deleted_at = deleted_at;
            deleted_at_seq = env.seq;
            delete_event_id = env.event_id;
            origin_history_id = src.history_id;
          })
          s.tombs;
    mutated = add_to env.id s.mutated;
  }

  -- The hash and the fingerprint of a deletion, which fall back on the live ones.
  unfoldable pub deleted_image : Envelope → Move → Image
  deleted_image env (delete old deleted_at) = record {
    content_hash = or_text (expected_hash p env) old.content_hash;
    fingerprint = or_text (expected_fingerprint p env) old.fingerprint;
  }
  deleted_image env move = record {
    content_hash = expected_hash p env;
    fingerprint = expected_fingerprint p env;
  }

  abbrev pub disposition_of : Move → Disposition
  disposition_of skip = skip_idempotent
  disposition_of skip_deduped = skip_legacy_deduped
  disposition_of dedupe = skip_legacy_deduped
  disposition_of create = apply_create
  disposition_of (update old) = apply_update
  disposition_of (delete old deleted_at) = apply_delete

  abbrev pub planned : Envelope → Image → Move → Planned
  planned env img move = record {
    disposition = disposition_of move;
    seq = env.seq;
    namespace = env.namespace;
    content_hash = img.content_hash;
    fingerprint = img.fingerprint;
  }

-- The image beside the move.
abbrev pub with_image : Image → Result ReplayError Move → Result ReplayError (Image × Move)
with_image img (err e) = err e
with_image img (ok move) = ok (img, move)

module _ (p : Platform) (rules : Rules) where
  unfoldable pub decide : Kind → Source → Event → Envelope → Sim → Result ReplayError (Image × Move)
  decide created src e env s =
      check_image p rules env >>= λ img. with_image img (decide_create src env img s)
  decide updated src e env s =
      check_image p rules env >>= λ img. with_image img (decide_update p src env img s)
  decide deleted src e env s =
      decide_delete p src e env s >>= λ move. ok (deleted_image p env move, move)

  abbrev unplanned : ℕ → Planned
  unplanned seq = record {
    disposition = observational;
    seq = seq;
    namespace = "";
    content_hash = "";
    fingerprint = "";
  }

  unfoldable pub plan_header : Source → Event → Sim → Header → Result ReplayError (Planned × Sim)
  plan_header src e s (Header.observational seq) = ok (unplanned seq, s)
  plan_header src e s (Header.reconstructing env) = decide env.kind src e env s >>= λ (img, move).
      ok (planned p env img move, advance p src env img move s)

  -- `_validate_and_plan_event_step`
  unfoldable pub plan_event :
      List String → Source → ℕ → Event → Sim → Result ReplayError (Planned × Sim)
  plan_event types src prev e s =
      check_event p types src prev e >>= λ header. plan_header src e s header

  -- The loop of the first pass.
  unfoldable pub plan_events :
      List String → Source → ℕ → List Event → Sim → Result ReplayError (List Planned × Sim)
  plan_events types src prev [] s = ok ([], s)
  plan_events types src prev (e ∷ rest) s = do
    (step, s') ← plan_event types src prev e s
    (steps, t) ← plan_events types src step.seq rest s'
    ok (step ∷ steps, t)
