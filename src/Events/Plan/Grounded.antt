-- ===== src/Events/Plan/Grounded.antt =====
-- What each decision of a replay step rests on, those that leave the state included.
use hot_mem.Prelude.{
  ◌≡◌, ◌⊎◌, inl, inr, arith, Bool, true, false, ◌&&◌, ◌||◌, not, none, some, ◌=ₛ◌, Option-cases,
  Bool-cases, Result-cases, String, Result, ok, ◌>>=◌, >>=-eq-ok, ok-injective, sym, ap, ◌∙◌,
}
use hot_mem.Json.{get}
use hot_mem.Policy.Platform.{Platform}
use hot_mem.Events.Types.{Event, Kind, created, updated, deleted, ReplayError, Source, Rules}
use hot_mem.Events.Header.{Envelope}
use hot_mem.Events.Image.{Image, check_image}
use hot_mem.Events.State.{Live, Tomb, Sim}
use hot_mem.Events.Move.{
  Move, skip, skip_deduped, dedupe, create, update, delete, Unburied, buried, same_state, caught_up,
  held_by_other, is_dedupe_marker,
}
use hot_mem.Events.Move.Create.{decide_create}
use hot_mem.Events.Move.Update.{decide_update, decide_update_live, no_return}
use hot_mem.Events.Move.Delete.{
  decide_delete, decide_delete_at, decide_delete_live, deletion_time, decide_delete-at,
  decide_delete-deduped, decide_delete-untimed, same_deletion,
}
use hot_mem.Events.Plan.{decide, with_image, deleted_image}
use hot_mem.Events.Plan.Justified.{Justified, Hashed, decide-Justified, with_image-ok}

module _ (p : Platform) (src : Source) (env : Envelope) (s : Sim) where
  -- No earlier event of the page has created or changed the record.
  abbrev Untouched : Kind → Type 0
  Untouched created = s.created env.id ≡ false
  Untouched updated = s.mutated env.id ≡ false
  Untouched deleted = (s.mutated env.id ≡ false) × (s.live env.id ≡ none)

  abbrev covered : Kind → Tomb → Bool
  covered created tomb = buried src env tomb
  covered updated tomb = buried src env tomb
  covered deleted tomb = same_deletion p src env tomb

  -- The live record is the one that the event leads to, or its watermark includes the event.
  abbrev reached : Kind → Image → Live → Bool
  reached created img live =
      (not env.is_v1 && live.content_hash =ₛ img.content_hash)
      || same_state live img
      || caught_up src env live s
  reached updated img live =
      same_state live img
        && no_return p (get "previous_content_hash" env.payload) img.content_hash live.content_hash
        && no_return p (get "previous_record_fingerprint" env.payload) img.fingerprint
            live.fingerprint
      || caught_up src env live s
  reached deleted img live = false

  -- The creation of the record has been ignored as a duplicate.
  abbrev Ignored : Kind → Type 0
  Ignored created = ⊥
  Ignored kind = s.legacy_deduped env.id ≡ true

  -- The state includes the event: its record was ignored as a duplicate, a tombstone covers it, or
  -- the live record has reached it.
  abbrev pub Included : Kind → Image → Type 0
  Included kind img =
      Ignored kind
      ⊎ (((tomb : Tomb) × (s.tombs env.id ≡ some tomb)
            × (covered kind tomb ≡ true)
            × Untouched kind)
          ⊎ (Unburied env s
              × (live : Live) × (s.live env.id ≡ some live)
              × ((live.namespace =ₛ env.namespace) ≡ true)
              × (reached kind img live ≡ true)))

  -- There is no record, and its watermark is that of a duplicate.
  abbrev Marked : Type 0
  Marked = Unburied env s × (s.live env.id ≡ none) × (is_dedupe_marker src (s.marks env.id) ≡ true)

  -- What a move that is decided for an event of the kind presupposes.
  abbrev pub Grounded : Kind → Image → Move → Type 0
  Grounded kind img skip = Included kind img
  Grounded created img create = Justified p env s img create
  Grounded created img dedupe =
      Unburied env s
      × (s.live env.id ≡ none)
      × (held_by_other env img.content_hash s ≡ true)
      × (env.is_v1 ≡ false)
  Grounded updated img skip_deduped = Marked
  Grounded updated img (update old) = Justified p env s img (update old)
  Grounded deleted img skip_deduped = Marked
  Grounded deleted img (delete old at) = Justified p env s img (delete old at)
  Grounded kind img move = ⊥

  module _ (img : Image) where
    decide_create-skip : decide_create src env img s ≡ ok skip → Included created img
    unfolding decide_create
    decide_create-skip h = elim (Option-cases (s.tombs env.id)) [
      | inr (tomb, e) ↦ inr (inl (tomb, e, ground arith, ground arith))
      | inl unburied ↦ elim (Option-cases (s.live env.id)) [
        | inl dead ↦ absurd (ground arith)
        | inr (live, e) ↦ inr (inr (unburied, live, e, ground arith, ground arith))
      ]
    ]

    decide_create-Grounded :
        (move : Move)
        → decide_create src env img s ≡ ok move
        → Justified p env s img move
        → Grounded created img move
    unfolding decide_create
    decide_create-Grounded skip h just = decide_create-skip h
    decide_create-Grounded skip_deduped h just = absurd (ground arith)
    decide_create-Grounded dedupe h just = (ground arith, ground arith, ground arith, ground arith)
    decide_create-Grounded create h just = just
    decide_create-Grounded (update old) h just = absurd (ground arith)
    decide_create-Grounded (delete old at) h just = absurd (ground arith)

    decide_update_live-skipped :
        (live : Live)
        → decide_update_live p src env img live s ≡ ok skip
        → ((live.namespace =ₛ env.namespace) ≡ true) × (reached updated img live ≡ true)
    unfolding decide_update_live
    decide_update_live-skipped live h = (ground arith, ground arith)

    decide_update-skip : decide_update p src env img s ≡ ok skip → Included updated img
    unfolding decide_update
    decide_update-skip h = elim (Bool-cases (s.legacy_deduped env.id)) [
      | inl noted ↦ inl noted
      | inr fresh ↦ elim (Option-cases (s.tombs env.id)) [
        | inr (tomb, e) ↦ inr (inl (tomb, e, ground arith, ground arith))
        | inl unburied ↦ elim (Option-cases (s.live env.id)) [
          | inl dead ↦ absurd (ground arith)
          | inr (live, e) ↦
              let (ns, at) = decide_update_live-skipped live (ground arith) in
              inr (inr (unburied, live, e, ns, at))
        ]
      ]
    ]

    decide_update-Grounded :
        (move : Move)
        → decide_update p src env img s ≡ ok move
        → Justified p env s img move
        → Grounded updated img move
    unfolding decide_update decide_update_live
    decide_update-Grounded skip h just = decide_update-skip h
    decide_update-Grounded skip_deduped h just = (ground arith, ground arith, ground arith)
    decide_update-Grounded dedupe h just = absurd (ground arith)
    decide_update-Grounded create h just = absurd (ground arith)
    decide_update-Grounded (update old) h just = just
    decide_update-Grounded (delete old at) h just = absurd (ground arith)

    decide_delete_at-skip :
        (at : String) → decide_delete_at p src env at s ≡ ok skip → Included deleted img
    unfolding decide_delete_at decide_delete_live
    decide_delete_at-skip at h = elim (Option-cases (s.tombs env.id)) [
      | inr (tomb, e) ↦ elim (Option-cases (s.live env.id)) [
        | inl dead ↦ inr (inl (tomb, e, ground arith, (ground arith, dead)))
        | inr (live, l) ↦ absurd (ground arith)
      ]
      | inl unburied ↦ absurd (ground arith)
    ]

    decide_delete_at-Grounded :
        (at : String) (move : Move)
        → decide_delete_at p src env at s ≡ ok move
        → Justified p env s img move
        → Grounded deleted img move
    unfolding decide_delete_at decide_delete_live
    decide_delete_at-Grounded at skip h just = decide_delete_at-skip at h
    decide_delete_at-Grounded at skip_deduped h just = (ground arith, ground arith, ground arith)
    decide_delete_at-Grounded at dedupe h just = absurd (ground arith)
    decide_delete_at-Grounded at create h just = absurd (ground arith)
    decide_delete_at-Grounded at (update old) h just = absurd (ground arith)
    decide_delete_at-Grounded at (delete old time) h just = just

    decide_delete-Grounded :
        (e : Event) (move : Move)
        → decide_delete p src e env s ≡ ok move
        → Justified p env s img move
        → Grounded deleted img move
    decide_delete-Grounded e move h just = elim (Bool-cases (s.legacy_deduped env.id)) [
      | inl noted ↦ rw (decide_delete-deduped p src env s e move noted h) (inl noted)
      | inr fresh ↦ elim (Result-cases (deletion_time p e env)) [
        | inl (failed, untimed) ↦ absurd (decide_delete-untimed p src env s e move failed untimed h)
        | inr (at, timed) ↦
            decide_delete_at-Grounded at move (decide_delete-at p src env s e move at timed fresh h)
              just
      ]
    ]

module _ (p : Platform) (rules : Rules) (env : Envelope) where
  -- The move that is decided for an event fits its kind and is grounded in the state. A creation needs
  -- an id without a live record and a pair that no other id holds; a change and a deletion need the
  -- live record that the event names as its base; none of them may have a tombstone, and a creation
  -- or a change has a content hash. A skipped event has a record whose creation was ignored, or one
  -- that a tombstone covers or that has reached the event's state; a creation that is ignored has a
  -- pair that another id holds.
  pub decide-Grounded :
      (kind : Kind) (src : Source) (e : Event) (s : Sim) (img : Image) (move : Move)
      → decide p rules kind src e env s ≡ ok (img, move)
      → Grounded p src env s kind img move × Hashed p env s img move
  unfolding decide
  decide-Grounded kind src e s img move h =
      let (just, hashed) = decide-Justified p rules env kind src e s img move h in
      (grounded kind h just, hashed)
    where
      of_image :
          (decision : Image → Result ReplayError Move)
          → (check_image p rules env >>= λ i. with_image i (decision i)) ≡ ok (img, move)
          → decision img ≡ ok move
      of_image decision h =
          let (i, checked, h1) =
            >>=-eq-ok (check_image p rules env) (λ i. with_image i (decision i)) h in
          let (same, decided) = with_image-ok p rules env i img (decision i) move h1 in
          rw same at decided

      grounded :
          (kind : Kind)
          → decide p rules kind src e env s ≡ ok (img, move)
          → Justified p env s img move
          → Grounded p src env s kind img move
      grounded created h just =
          decide_create-Grounded p src env s img move (of_image (λ i. decide_create src env i s) h)
            just
      grounded updated h just =
          decide_update-Grounded p src env s img move
            (of_image (λ i. decide_update p src env i s) h) just
      grounded deleted h just =
          let (m, decided, h1) =
            >>=-eq-ok (decide_delete p src e env s) (λ m. ok (deleted_image p env m, m)) h in
          decide_delete-Grounded p src env s img e move
            (decided ∙ sym (ap ok (ap (λ (x : Image × Move). x.1) (ok-injective h1)))) just
