-- ===== src/Events/Move/Delete.antt =====
-- The decision on a `memory.deleted` event, in `_validate_and_plan_event_step` of
-- src/hotmem/events.py.
use hot_mem.Prelude.{
  String, ◌≡◌, ◌⊎◌, inl, inr, arith, Bool-cases, Result-cases, Option-cases, Bool, true, false,
  ◌&&◌, ◌||◌, not, Option, none, some, if◌then◌else◌, ◌=ₛ◌, Result, ok, err, ◌>>=◌, ◌>>◌, raise_if,
}
use hot_mem.Prelude.Strings.{strip, is_blank}
use hot_mem.Json.{str, get, truthy}
use hot_mem.Policy.Platform.{Platform, str_or_empty}
use hot_mem.Events.Types.{Event, ReplayError, Source}
use hot_mem.Events.Header.{Envelope, none_or}
use hot_mem.Events.State.{Live, Tomb, Sim}
use hot_mem.Events.Move.{
  Move, skip, skip_deduped, delete, is_dedupe_marker, buried, failure, Unburied,
}

module _ (p : Platform) where
  abbrev pub expected_hash : Envelope → String
  expected_hash env = str_or_empty p (get "content_hash" env.payload)

  abbrev pub expected_fingerprint : Envelope → String
  expected_fingerprint env = str_or_empty p (get "record_fingerprint" env.payload)

  abbrev pub payload_identifier : Envelope → String
  payload_identifier env = str_or_empty p (get "identifier" env.payload)

  -- `payload.get("deleted_at") or evt.get("occurred_at")`, a text that is not blank.
  unfoldable pub deletion_time : Event → Envelope → Result ReplayError String
  deletion_time e env =
      let stated = get "deleted_at" env.payload in
      elim (if truthy stated then stated else e.occurred_at) [
        | str s ↦ if is_blank (strip s) then err (failure "malformed_event_payload" env) else ok s
        | _ ↦ err (failure "malformed_event_payload" env)
      ]

  unfoldable pub decide_delete_live : Envelope → Live → String → Result ReplayError Move
  decide_delete_live env live deleted_at = do
    raise_if (not (live.namespace =ₛ env.namespace)) (failure "identity_mismatch" env)
    raise_if (env.is_v1 && not (payload_identifier env =ₛ live.identifier))
        (failure "identity_mismatch" env)
    raise_if (not (is_blank (expected_hash env)) && not (live.content_hash =ₛ expected_hash env))
        (failure "base_state_mismatch" env)
    raise_if
        (not (is_blank (expected_fingerprint env))
          && not (live.fingerprint =ₛ expected_fingerprint env))
        (failure "base_state_mismatch" env)
    ok (delete live deleted_at)

  abbrev pub is_some_live : Option Live → Bool
  is_some_live none = false
  is_some_live (some live) = true

  -- The same deletion, or one that the tombstone includes.
  abbrev pub same_deletion : Source → Envelope → Tomb → Bool
  same_deletion src env tomb =
      not (is_blank env.event_id) && tomb.delete_event_id =ₛ env.event_id || buried src env tomb

  unfoldable pub decide_delete_at : Source → Envelope → String → Sim → Result ReplayError Move
  decide_delete_at src env deleted_at s = elim (s.tombs env.id) [
    | some tomb ↦
        if not (is_some_live (s.live env.id))
          && not (s.mutated env.id)
          && same_deletion src env tomb
        then ok skip
        else err (failure "already_tombstoned" env)
    | none ↦ elim (s.live env.id) [
      | none ↦
          if is_dedupe_marker src (s.marks env.id)
          then ok skip_deduped
          else err (failure "missing_target_record" env)
      | some live ↦ decide_delete_live env live deleted_at
    ]
  ]

  unfoldable pub decide_delete : Source → Event → Envelope → Sim → Result ReplayError Move
  decide_delete src e env s = do
    raise_if (not (none_or "delete" (get "transition" env.payload)))
        (failure "malformed_event_payload" env)
    deleted_at ← deletion_time e env
    if s.legacy_deduped env.id then ok skip else do
      raise_if
          (env.is_v1
            && (is_blank (expected_hash env)
                || is_blank (expected_fingerprint env)
                || is_blank (payload_identifier env)))
          (failure "malformed_event_payload" env)
      decide_delete_at src env deleted_at s

module _ (p : Platform) (src : Source) (env : Envelope) (s : Sim) where
  pub decide_delete_live-raw :
      (live old : Live) (time at : String)
      → decide_delete_live p env live at ≡ ok (delete old time)
      → (old ≡ live)
        × ((live.namespace =ₛ env.namespace) ≡ true)
        × ((not (is_blank (expected_hash p env)) && not (live.content_hash =ₛ expected_hash p env))
            ≡ false)
        × ((not (is_blank (expected_fingerprint p env))
              && not (live.fingerprint =ₛ expected_fingerprint p env))
            ≡ false)
  unfolding decide_delete_live
  decide_delete_live-raw live old time at h = ground arith

  pub decide_delete_live-is :
      (live : Live) (move : Move) (at : String)
      → decide_delete_live p env live at ≡ ok move
      → move ≡ delete live at
  unfolding decide_delete_live
  decide_delete_live-is live move at h = ground arith

  pub decide_delete_at-cases :
      (at : String) (move : Move)
      → decide_delete_at p src env at s ≡ ok move
      → (move ≡ skip)
        ⊎ ((move ≡ skip_deduped)
            ⊎ (Unburied env s
                × (live : Live) × (s.live env.id ≡ some live)
                × (decide_delete_live p env live at ≡ ok move)))
  unfolding decide_delete_at
  decide_delete_at-cases at move h = elim (Option-cases (s.tombs env.id)) [
    | inr (tomb, t) ↦ inl (ground arith)
    | inl unburied ↦ elim (Option-cases (s.live env.id)) [
      | inl dead ↦ inr (inl (ground arith))
      | inr (live, e) ↦ inr (inr (unburied, live, e, ground arith))
    ]
  ]

  pub decide_delete-at :
      (e : Event) (move : Move) (at : String)
      → deletion_time p e env ≡ ok at
      → s.legacy_deduped env.id ≡ false
      → decide_delete p src e env s ≡ ok move
      → decide_delete_at p src env at s ≡ ok move
  unfolding decide_delete
  decide_delete-at e move at timed fresh h = ground arith

  pub decide_delete-deduped :
      (e : Event) (move : Move)
      → s.legacy_deduped env.id ≡ true
      → decide_delete p src e env s ≡ ok move
      → move ≡ skip
  unfolding decide_delete
  decide_delete-deduped e move noted h = ground arith

  pub decide_delete-untimed :
      (e : Event) (move : Move) (failed : ReplayError)
      → deletion_time p e env ≡ err failed
      → ¬ (decide_delete p src e env s ≡ ok move)
  unfolding decide_delete
  decide_delete-untimed e move failed untimed h = ground arith

  pub decide_delete-cases :
      (e : Event) (move : Move)
      → decide_delete p src e env s ≡ ok move
      → (move ≡ skip) ⊎ ((at : String) × (decide_delete_at p src env at s ≡ ok move))
  decide_delete-cases e move h = elim (Bool-cases (s.legacy_deduped env.id)) [
    | inl noted ↦ inl (decide_delete-deduped e move noted h)
    | inr fresh ↦ elim (Result-cases (deletion_time p e env)) [
      | inl (failed, untimed) ↦ absurd (decide_delete-untimed e move failed untimed h)
      | inr (at, timed) ↦ inr (at, decide_delete-at e move at timed fresh h)
    ]
  ]
