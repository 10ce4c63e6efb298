-- ===== src/Events/Move.antt =====
-- What the plan of a replay decides of an event, and what the decisions read of the simulated target,
-- in `_validate_and_plan_event_step` of src/hotmem/events.py.
pub mod Create
pub mod Update
pub mod Delete
use hot_mem.Prelude.{
  ℕ, String, ◌≡◌, refl, ap, ◌∙◌, ◌⊎◌, inl, inr, arith, eq_iff, Bool-cases, Option-cases,
  raise_if-eq-ok, >>=-eq-ok, >>-eq-ok, ok-injective, Bool, true, false, ◌&&◌, ◌||◌, not, Option,
  none, some, List, [], ◌∷◌, if◌then◌else◌, ◌=ₛ◌, leb, Result, ok, err, ◌>>=◌, ◌>>◌, raise_if,
}
use hot_mem.Prelude.Strings.{strip, is_blank}
use hot_mem.Json.{Value, null, str, Fields, get, truthy}
use hot_mem.Policy.Platform.{Platform, to_str, str_or_empty}
use hot_mem.Events.Types.{
  Event, Kind, created, updated, deleted, ReplayError, Source, Rules, compatible, is_text,
}
use hot_mem.Events.Header.{Envelope, Header, none_or, replay_error, check_event}
use hot_mem.Events.Image.{Image, check_image}
use hot_mem.Events.State.{
  put_at, drop_at, add_to, discard, bind_pair, free_pair, Live, Tomb, Mark, Sim,
}

-- What is decided of a reconstructing event; `dedupe` notes the id, `skip_deduped` does not.
pub data Move : Type 0 where
  skip skip_deduped dedupe : Move
  create : Move
  update : Live → Move
  delete : Live → String → Move

pub data Disposition : Type 0 where
  observational skip_idempotent skip_legacy_deduped apply_create apply_update apply_delete :
      Disposition

-- The tuple that the step returns.
pub record Planned : Type 0 where
  pub disposition : Disposition
  pub seq : ℕ
  pub namespace : String
  pub content_hash : String
  pub fingerprint : String

-- `a or b`
abbrev pub or_text : String → String → String
or_text a b = if is_blank a then b else a

-- The watermark says that the live state already includes the event.
unfoldable pub caught_up : Source → Envelope → Live → Sim → Bool
caught_up src env live s = elim (s.marks env.id) [
  | none ↦ false
  | some mark ↦
      not (s.mutated env.id)
      && leb env.seq mark.last_seq
      && compatible mark.history_id src.history_id
      && live.fingerprint =ₛ mark.fingerprint
]

-- The watermark of an id whose creation was ignored as a duplicate.
unfoldable pub is_dedupe_marker : Source → Option Mark → Bool
is_dedupe_marker src none = false
is_dedupe_marker src (some mark) =
    is_blank mark.fingerprint && compatible mark.history_id src.history_id

-- The tombstone includes the event.
abbrev pub buried : Source → Envelope → Tomb → Bool
buried src env tomb =
    leb env.seq tomb.deleted_at_seq && compatible tomb.origin_history_id src.history_id

-- The pair of the event's namespace and hash is held by another id.
unfoldable pub held_by_other : Envelope → String → Sim → Bool
held_by_other env hash s = elim (s.index env.namespace hash) [
  | none ↦ false
  | some other ↦ not (other =ₛ env.id)
]

abbrev pub failure : String → Envelope → ReplayError
failure reason env = replay_error reason env.seq env.event_id env.id

abbrev pub same_state : Live → Image → Bool
same_state live img = live.fingerprint =ₛ img.fingerprint && live.content_hash =ₛ img.content_hash

-- No other id holds the pair.
abbrev pub Free : Envelope → String → Sim → Type 0
Free env hash s = (s.index env.namespace hash ≡ none) ⊎ (s.index env.namespace hash ≡ some env.id)

pub held_by_other-Free :
    (env : Envelope) (hash : String) (s : Sim) → held_by_other env hash s ≡ false → Free env hash s
unfolding held_by_other
held_by_other-Free env hash s h = elim (Option-cases (s.index env.namespace hash)) [
  | inl e ↦ inl e
  | inr (other, e) ↦ elim (Bool-cases (other =ₛ env.id)) [
    | inl same ↦ inr (e ∙ ap some ((eq_iff other env.id).0 same))
    | inr differs ↦ let h' = rw (e, held_by_other, differs) at h in cc h'
  ]
]

-- The event's id has no tombstone.
abbrev pub Unburied : Envelope → Sim → Type 0
Unburied env s = s.tombs env.id ≡ none
