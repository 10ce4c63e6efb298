-- ===== src/Events/Move/Update.antt =====
-- The decision on a `memory.updated` event, in `_validate_and_plan_event_step` of
-- src/hotmem/events.py.
use hot_mem.Prelude.{
  String, ◌≡◌, ◌⊎◌, inl, inr, arith, Bool-cases, Option-cases, Bool, true, false, ◌&&◌, ◌||◌, not,
  none, some, if◌then◌else◌, ◌=ₛ◌, Result, ok, err, ◌>>◌, raise_if,
}
use hot_mem.Prelude.Strings.{is_blank}
use hot_mem.Json.{Value, null, get}
use hot_mem.Policy.Platform.{Platform, to_str}
use hot_mem.Events.Types.{ReplayError, Source, is_text}
use hot_mem.Events.Header.{Envelope, none_or}
use hot_mem.Events.Image.{Image}
use hot_mem.Events.State.{Live, Sim}
use hot_mem.Events.Move.{
  Move, skip, skip_deduped, update, caught_up, is_dedupe_marker, buried, held_by_other, failure,
  same_state, Unburied,
}

module _ (p : Platform) where
  -- `v is not None and str(v) != "" and text != str(v)`
  abbrev pub names_base : Value → String → Bool
  names_base null text = false
  names_base v text = not (is_blank (to_str p v)) && not (text =ₛ to_str p v)

  -- `v in (None, "") or v != after or text == str(v)`
  abbrev pub no_return : Value → String → String → Bool
  no_return v after text = none_or "" v || not (none_or after v) || text =ₛ to_str p v

  unfoldable pub decide_update_live :
      Source → Envelope → Image → Live → Sim → Result ReplayError Move
  decide_update_live src env img live s = do
    let prev_hash = get "previous_content_hash" env.payload
    let prev_fp = get "previous_record_fingerprint" env.payload
    raise_if (not (live.namespace =ₛ env.namespace)) (failure "identity_mismatch" env)
    raise_if (env.is_v1 && not (is_text prev_hash && is_text prev_fp))
        (failure "malformed_event_payload" env)
    if same_state live img
            && no_return prev_hash img.content_hash live.content_hash
            && no_return prev_fp img.fingerprint live.fingerprint
          || caught_up src env live s
        then ok skip
        else do
          raise_if (names_base prev_hash live.content_hash) (failure "base_state_mismatch" env)
          raise_if (not (s.legacy_created env.id) && names_base prev_fp live.fingerprint)
              (failure "base_state_mismatch" env)
          raise_if (held_by_other env img.content_hash s) (failure "content_hash_conflict" env)
          ok (update live)

  unfoldable pub decide_update : Source → Envelope → Image → Sim → Result ReplayError Move
  decide_update src env img s = if s.legacy_deduped env.id then ok skip else elim (s.tombs env.id) [
    | some tomb ↦
        if buried src env tomb && not (s.mutated env.id)
        then ok skip
        else err (failure "tombstoned_record_mutation" env)
    | none ↦ elim (s.live env.id) [
      | none ↦
          if is_dedupe_marker src (s.marks env.id)
          then ok skip_deduped
          else err (failure "missing_target_record" env)
      | some live ↦ decide_update_live src env img live s
    ]
  ]

module _ (p : Platform) (src : Source) (env : Envelope) (img : Image) (s : Sim) where
  pub decide_update_live-raw :
      (live old : Live)
      → decide_update_live p src env img live s ≡ ok (update old)
      → (old ≡ live)
        × ((live.namespace =ₛ env.namespace) ≡ true)
        × (names_base p (get "previous_content_hash" env.payload) live.content_hash ≡ false)
        × ((not (s.legacy_created env.id)
              && names_base p (get "previous_record_fingerprint" env.payload) live.fingerprint)
            ≡ false)
        × (held_by_other env img.content_hash s ≡ false)
  unfolding decide_update_live
  decide_update_live-raw live old h = ground arith

  pub decide_update_live-skip :
      (live : Live) (move : Move)
      → decide_update_live p src env img live s ≡ ok move
      → (move ≡ skip) ⊎ (move ≡ update live)
  unfolding decide_update_live
  decide_update_live-skip live move h = ground arith

  pub decide_update-cases :
      (move : Move)
      → decide_update p src env img s ≡ ok move
      → (move ≡ skip)
        ⊎ ((move ≡ skip_deduped)
            ⊎ (Unburied env s
                × (live : Live) × (s.live env.id ≡ some live)
                × (decide_update_live p src env img live s ≡ ok move)))
  unfolding decide_update
  decide_update-cases move h = elim (Option-cases (s.live env.id)) [
    | inl dead ↦ ground arith
    | inr (live, e) ↦ elim (Bool-cases (s.legacy_deduped env.id)) [
      | inl noted ↦ inl (ground arith)
      | inr fresh ↦ elim (Option-cases (s.tombs env.id)) [
        | inr (tomb, t) ↦ inl (ground arith)
        | inl unburied ↦ inr (inr (unburied, live, e, ground arith))
      ]
    ]
  ]
