-- ===== src/Events/Plan/Justified.antt =====
-- What a decision of a replay step that changes the state rests on.
use hot_mem.Prelude.{
  String, ◌≡◌, refl, sym, ap, ◌∙◌, ◌⊎◌, inl, inr, arith, eq_iff, Bool-cases, >>=-eq-ok,
  ok-injective, Bool, true, false, ◌&&◌, not, none, some, ◌=ₛ◌, Result, ok, ◌>>=◌,
}
use hot_mem.Prelude.Strings.{is_blank}
use hot_mem.Json.{get}
use hot_mem.Policy.Platform.{Platform}
use hot_mem.Events.Types.{Event, Kind, created, updated, deleted, ReplayError, Source, Rules}
use hot_mem.Events.Header.{Envelope}
use hot_mem.Events.Image.{Image, check_image}
use hot_mem.Events.State.{Sim}
use hot_mem.Events.Move.{
  Move, skip, skip_deduped, dedupe, create, update, delete, Free, held_by_other-Free, Unburied,
}
use hot_mem.Events.Move.Create.{decide_create, decide_create-raw}
use hot_mem.Events.Move.Update.{
  decide_update, names_base, decide_update_live-raw, decide_update_live-skip, decide_update-cases,
}
use hot_mem.Events.Move.Delete.{
  decide_delete, expected_hash, expected_fingerprint, decide_delete_at, decide_delete_live-raw,
  decide_delete_live-is, decide_delete_at-cases, decide_delete-cases,
}
use hot_mem.Events.Plan.{decide, with_image, deleted_image}

module _ (p : Platform) (env : Envelope) (s : Sim) where
  -- What a move presupposes of the state: a creation an id that is not live and a pair that no other
  -- id holds; a change the live state that the event names as its base; and neither a tombstone.
  -- The moves that leave the state are the subject of Events/Plan/Grounded.
  abbrev pub Justified : Image → Move → Type 0
  Justified img create = Unburied env s × (s.live env.id ≡ none) × Free env img.content_hash s
  Justified img (update old) =
      Unburied env s
      × (s.live env.id ≡ some old)
      × (old.namespace ≡ env.namespace)
      × Free env img.content_hash s
      × (names_base p (get "previous_content_hash" env.payload) old.content_hash ≡ false)
      × ((s.legacy_created env.id ≡ true)
          ⊎ (names_base p (get "previous_record_fingerprint" env.payload) old.fingerprint ≡ false))
  Justified img (delete old deleted_at) =
      Unburied env s
      × (s.live env.id ≡ some old)
      × (old.namespace ≡ env.namespace)
      × ((is_blank (expected_hash p env) ≡ true) ⊎ (old.content_hash ≡ expected_hash p env))
      × ((is_blank (expected_fingerprint p env) ≡ true)
          ⊎ (old.fingerprint ≡ expected_fingerprint p env))
  Justified img move = Unit

  -- A creation or a change has a content hash.
  abbrev pub Hashed : Image → Move → Type 0
  Hashed img create = is_blank img.content_hash ≡ false
  Hashed img (update old) = is_blank img.content_hash ≡ false
  Hashed img move = Unit

  module _ (src : Source) (img : Image) where
    decide_create-Justified :
        (move : Move) → decide_create src env img s ≡ ok move → Justified img move
    unfolding decide_create
    decide_create-Justified skip h = tt
    decide_create-Justified skip_deduped h = tt
    decide_create-Justified dedupe h = tt
    decide_create-Justified create h =
        let (unburied, dead, free) = decide_create-raw src env img s h in
        (unburied, dead, held_by_other-Free env img.content_hash s free)
    decide_create-Justified (update old) h = absurd (ground arith)
    decide_create-Justified (delete old at) h = absurd (ground arith)

    not_passed : (a b : Bool) → (not a && b) ≡ false → (a ≡ true) ⊎ (b ≡ false)
    not_passed true b h = inl refl
    not_passed false b h = inr h

    decide_update-Justified :
        (move : Move) → decide_update p src env img s ≡ ok move → Justified img move
    decide_update-Justified move h = elim (decide_update-cases p src env img s move h) [
      | inl e ↦ rw e tt
      | inr (inl e) ↦ rw e tt
      | inr (inr (unburied, live, at, d)) ↦
          elim (decide_update_live-skip p src env img s live move d) [
            | inl e ↦ rw e tt
            | inr e ↦
                let (same, ns, base, state, free) =
                  decide_update_live-raw p src env img s live live (rw e at d) in
                rw e (
                  unburied,
                  at,
                  (eq_iff live.namespace env.namespace).0 ns,
                  held_by_other-Free env img.content_hash s free,
                  base,
                  not_passed (s.legacy_created env.id) _ state,
                )
          ]
    ]

    unless_blank :
        (b : Bool) (x y : String) → (not b && not (x =ₛ y)) ≡ false → (b ≡ true) ⊎ (x ≡ y)
    unless_blank true x y h = inl refl
    unless_blank false x y h = elim (Bool-cases (x =ₛ y)) [
      | inl same ↦ inr ((eq_iff x y).0 same)
      | inr differs ↦ let h' = rw differs at h in cc h'
    ]

    decide_delete_at-Justified :
        (at : String) (move : Move)
        → decide_delete_at p src env at s ≡ ok move
        → Justified img move × Hashed img move
    decide_delete_at-Justified at move h = elim (decide_delete_at-cases p src env s at move h) [
      | inl e ↦ rw e (tt, tt)
      | inr (inl e) ↦ rw e (tt, tt)
      | inr (inr (unburied, live, e, d)) ↦
          let is = decide_delete_live-is p src env s live move at d in
          let (same, ns, hash, state) =
            decide_delete_live-raw p src env s live live at at (rw is at d) in
          rw is (
            (
              unburied,
              e,
              (eq_iff live.namespace env.namespace).0 ns,
              unless_blank (is_blank (expected_hash p env)) live.content_hash (expected_hash p env)
                  hash,
              unless_blank (is_blank (expected_fingerprint p env)) live.fingerprint
                  (expected_fingerprint p env) state,
            ),
            tt,
          )
    ]

    decide_delete-Justified :
        (e : Event) (move : Move)
        → decide_delete p src e env s ≡ ok move
        → Justified img move × Hashed img move
    decide_delete-Justified e move h = elim (decide_delete-cases p src env s e move h) [
      | inl skips ↦ rw skips (tt, tt)
      | inr (at, d) ↦ decide_delete_at-Justified at move d
    ]

module _ (p : Platform) (rules : Rules) (env : Envelope) where
  check_image-hash :
      (img : Image) → check_image p rules env ≡ ok img → is_blank img.content_hash ≡ false
  unfolding check_image
  check_image-hash img h = ground arith

  pub with_image-ok :
      (i img : Image) (decision : Result ReplayError Move) (move : Move)
      → with_image i decision ≡ ok (img, move)
      → (i ≡ img) × (decision ≡ ok move)
  with_image-ok i img decision move h = ground arith

  with_image-Hashed :
      (s : Sim) (decision : Image → Result ReplayError Move) (img : Image) (move : Move)
      → (check_image p rules env >>= λ i. with_image i (decision i)) ≡ ok (img, move)
      → ((m : Move) → decision img ≡ ok m → Justified p env s img m)
      → Justified p env s img move × Hashed p env s img move
  with_image-Hashed s decision img move h justified =
      let (i, checked, h1) =
        >>=-eq-ok (check_image p rules env) (λ i. with_image i (decision i)) h in
      let (same, decided) = with_image-ok i img (decision i) move h1 in
      (
        justified move (rw same at decided),
        hashed move (check_image-hash img (checked ∙ ap ok same)),
      )
    where
      hashed : (m : Move) → is_blank img.content_hash ≡ false → Hashed p env s img m
      hashed create b = b
      hashed (update old) b = b
      hashed (delete old at) b = tt
      hashed skip b = tt
      hashed skip_deduped b = tt
      hashed dedupe b = tt

  -- A creation, a change or a deletion that is decided for an event is justified by the state.
  pub decide-Justified :
      (kind : Kind) (src : Source) (e : Event) (s : Sim) (img : Image) (move : Move)
      → decide p rules kind src e env s ≡ ok (img, move)
      → Justified p env s img move × Hashed p env s img move
  unfolding decide
  decide-Justified created src e s img move h =
      with_image-Hashed s (λ i. decide_create src env i s) img move h
        (decide_create-Justified p env s src img)
  decide-Justified updated src e s img move h =
      with_image-Hashed s (λ i. decide_update p src env i s) img move h
        (decide_update-Justified p env s src img)
  decide-Justified deleted src e s img move h =
      let (m, decided, h1) =
        >>=-eq-ok (decide_delete p src e env s) (λ m. ok (deleted_image p env m, m)) h in
      let both = ok-injective h1 in
      decide_delete-Justified p env s src img e move
        (decided ∙ sym (ap ok (ap (λ (x : Image × Move). x.1) both)))
