-- ===== src/Events/Plan/Consistent.antt =====
-- The simulated target of a replay stays consistent.
use mathlib.Core.Path.{subst}
use hot_mem.Prelude.{
  String, ◌≡◌, ◌≢◌, sym, ap, ◌⊎◌, inl, inr, false, none, some, if◌then◌else◌, ◌=ₛ◌, Bool-cases,
  arith, List, ℕ, ok,
}
use hot_mem.Prelude.Strings.{is_blank}
use hot_mem.Policy.Platform.{Platform}
use hot_mem.Events.Types.{Event, Source, Rules}
use hot_mem.Events.Header.{Envelope}
use hot_mem.Events.Image.{Image}
use hot_mem.Events.State.{put_at, bind_pair, free_pair, Live, Tomb, Sim}
use hot_mem.Events.State.Pairs.{bind_pair-other, bind_pair-own, free_pair-other, free_pair-free}
use hot_mem.Events.State.Maps.{put_at-cases, drop_at-cases, keys-differ, put_at-other, drop_at-none}
use hot_mem.Events.Move.{Move, skip, skip_deduped, dedupe, create, update, delete, Planned}
use hot_mem.Events.Plan.{live_of, advance, plan_events}
use hot_mem.Events.Plan.Steps.{plan_events-keeps}
use hot_mem.Events.Plan.Justified.{Justified}

-- The live records with a content hash hold their pair of a namespace and a hash, and no record with
-- a tombstone is live.
pub record IsConsistent (s : Sim) : Type 0 where
  pub indexed :
      (id : String) (live : Live)
      → s.live id ≡ some live
      → is_blank live.content_hash ≡ false
      → s.index live.namespace live.content_hash ≡ some id
  pub dead : (id : String) (tomb : Tomb) → s.tombs id ≡ some tomb → s.live id ≡ none

module _ (p : Platform) (src : Source) (env : Envelope) (img : Image) (s : Sim)
    (c : IsConsistent s) where
  -- A tombstone of another record is of one that is not live, also when the event's id becomes live.
  dead-put_at :
      s.tombs env.id ≡ none
      → (new : Live) (id : String) (tomb : Tomb) → s.tombs id ≡ some tomb
      → put_at env.id new s.live id ≡ none
  dead-put_at unburied new id tomb at =
      put_at-other env.id new s.live id (keys-differ s.tombs id env.id tomb at unburied)
        (c.dead id tomb at)

  advance-create-IsConsistent :
      Justified p env s img create → IsConsistent (advance p src env img create s)
  unfolding advance
  advance-create-IsConsistent (unburied, fresh, free) = record {
    indexed = λ id live at hashed.
        elim (put_at-cases env.id (live_of p env img) s.live id live at) [
          | inl (same, is) ↦
              rw (same, is) (bind_pair-own s.index env.namespace img.content_hash env.id)
          | inr (other, old) ↦
              bind_pair-other s.index env.namespace img.content_hash env.id live.namespace
                live.content_hash id (c.indexed id live old hashed) other free
        ];
    dead = dead-put_at unburied (live_of p env img);
  }

  -- The pair of the old state, or another one.
  old_pair :
      (old live : Live)
      → s.live env.id ≡ some old
      → old.namespace ≡ env.namespace
      → is_blank live.content_hash ≡ false
      → (old.content_hash ≢ live.content_hash)
        ⊎ (s.index env.namespace old.content_hash ≡ some env.id)
  old_pair old live at ns hashed = elim (Bool-cases (is_blank old.content_hash)) [
    | inl blank ↦ inl λ e. cc (ap is_blank e)
    | inr held ↦
        inr
          (subst (λ n. s.index n old.content_hash ≡ some env.id) ns (c.indexed env.id old at held))
  ]

  advance-update-IsConsistent :
      (old : Live)
      → Justified p env s img (update old)
      → IsConsistent (advance p src env img (update old) s)
  unfolding advance
  advance-update-IsConsistent old (unburied, at_old, ns, free, base, state) = record {
    indexed = λ id live at hashed.
        elim (put_at-cases env.id (live_of p env img) s.live id live at) [
          | inl (same, is) ↦
              rw (same, is)
                (bind_pair-own
                  (if old.content_hash =ₛ img.content_hash
                    then s.index
                    else free_pair env.namespace old.content_hash s.index)
                  env.namespace img.content_hash env.id)
          | inr (other, at_other) ↦
              let held = c.indexed id live at_other hashed in
              elim (Bool-cases (old.content_hash =ₛ img.content_hash)) [
                | inl same ↦
                    subst
                      (λ b.
                        bind_pair env.namespace img.content_hash env.id
                          (if b then s.index else free_pair env.namespace old.content_hash s.index)
                          live.namespace live.content_hash
                        ≡ some id)
                      (sym same)
                      (bind_pair-other s.index env.namespace img.content_hash env.id live.namespace
                        live.content_hash id held other free)
                | inr differs ↦
                    subst
                      (λ b.
                        bind_pair env.namespace img.content_hash env.id
                          (if b then s.index else free_pair env.namespace old.content_hash s.index)
                          live.namespace live.content_hash
                        ≡ some id)
                      (sym differs)
                      (bind_pair-other (free_pair env.namespace old.content_hash s.index)
                        env.namespace img.content_hash env.id live.namespace live.content_hash id
                        (free_pair-other s.index env.namespace old.content_hash env.id
                          live.namespace live.content_hash id held other
                          (old_pair old live at_old ns hashed))
                        other
                        (free_pair-free s.index env.namespace old.content_hash env.id env.namespace
                          img.content_hash free))
              ]
        ];
    dead = dead-put_at unburied (live_of p env img);
  }

  advance-delete-IsConsistent :
      (old : Live) (time : String)
      → Justified p env s img (delete old time)
      → IsConsistent (advance p src env img (delete old time) s)
  unfolding advance
  advance-delete-IsConsistent old time (unburied, at_old, ns, named, state) = record {
    indexed = λ id live at hashed.
        let (other, at_other) = drop_at-cases env.id s.live id live at in
        free_pair-other s.index env.namespace old.content_hash env.id live.namespace
          live.content_hash id (c.indexed id live at_other hashed) other
          (old_pair old live at_old ns hashed);
    dead = λ id tomb at. elim (put_at-cases env.id _ s.tombs id tomb at) [
      | inl (same, is) ↦ drop_at-none env.id s.live id λ other. absurd (other same)
      | inr (other, before) ↦ drop_at-none env.id s.live id λ o. c.dead id tomb before
    ];
  }

  advance-IsConsistent :
      (move : Move) → Justified p env s img move → IsConsistent (advance p src env img move s)
  unfolding advance
  advance-IsConsistent skip j = c
  advance-IsConsistent skip_deduped j = c
  advance-IsConsistent dedupe j = record { indexed = c.indexed; dead = c.dead }
  advance-IsConsistent create j = advance-create-IsConsistent j
  advance-IsConsistent (update old) j = advance-update-IsConsistent old j
  advance-IsConsistent (delete old time) j = advance-delete-IsConsistent old time j

module _ (p : Platform) (rules : Rules) (types : List String) (src : Source) where
  -- The first pass over a sequence of events, when it accepts them, leads from a consistent state to a
  -- consistent one: a live record with a content hash that is not blank holds its pair of a namespace
  -- and a hash in the index, and a record with a tombstone is not live.
  pub plan_events-IsConsistent :
      (prev : ℕ) (events : List Event) (s : Sim) (steps : List Planned) (t : Sim)
      → plan_events p rules types src prev events s ≡ ok (steps, t)
      → IsConsistent s
      → IsConsistent t
  plan_events-IsConsistent prev events s steps t h c =
      plan_events-keeps p rules types src
        (λ env img move s just hashed c. advance-IsConsistent p src env img s c move just) prev
        events s steps t h c

  -- Two records that are live after the first pass over a sequence of events, from a consistent
  -- state, and that have the same namespace and the same content hash, which is not blank, have the
  -- same id.
  pub plan_events_unique :
      (prev : ℕ) (events : List Event) (s : Sim) (steps : List Planned) (t : Sim) (i j : String)
      (a b : Live)
      → IsConsistent s
      → plan_events p rules types src prev events s ≡ ok (steps, t)
      → t.live i ≡ some a
      → t.live j ≡ some b
      → a.namespace ≡ b.namespace
      → a.content_hash ≡ b.content_hash
      → is_blank a.content_hash ≡ false
      → i ≡ j
  plan_events_unique prev events s steps t i j a b c h at_i at_j same_ns same_hash hashed =
      let d = plan_events-IsConsistent prev events s steps t h c in
      let held_i = d.indexed i a at_i hashed in
      let held_j = d.indexed j b at_j (rw same_hash at hashed) in grind arith
