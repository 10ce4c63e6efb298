-- ===== src/Log/Compact/Safe.antt =====
-- What `compact_tombstones` of src/hotmem/events.py removes.
use mathlib.Core.List.{Memᴰ}
use mathlib.Core.Path.{subst}
use hot_mem.Prelude.{
  ℕ, ◌≤◌, String, ◌≡◌, refl, ap, ◌⊎◌, inl, inr, false, ◌&&◌, not, none, List, [], ◌∷◌,
  if◌then◌else◌, map, keep, any, contains, ltb, Bool-cases, ok, >>-eq-ok, raise_if-eq-ok,
  ok-injective, arith,
}
use hot_mem.Prelude.Strings.{is_blank}
use hot_mem.Prelude.Membership.{contains→Memᴰ, Memᴰ-cons, Memᴰ-map, Memᴰ-keep, keep-Memᴰ}
use hot_mem.Delta.Store.{get_memory}
use hot_mem.Events.Target.{TombRow}
use hot_mem.Log.Tables.{
  Database, Tombstone, has_events_at_or_before_seq, delete_tombstones, list_tombstones,
  of_namespace, insert_tombstone, sorted, sorts_before,
}
use hot_mem.Log.Compact.{
  Compaction, CompactRequest, live_record_conflict, events_not_trimmed_through_tombstone,
  unacknowledged_tombstone_horizon, beyond, effective_seq, up_to, candidates, is_live,
  check_candidate, check_candidates, new_watermark, remove_candidates, compact_listed,
  compact_tombstones,
}

insert_tombstone-Memᴰ :
    (t : Tombstone) (us : List Tombstone) {x : Tombstone}
    → Memᴰ x (insert_tombstone t us)
    → (x ≡ t) ⊎ Memᴰ x us
insert_tombstone-Memᴰ t [] m = Memᴰ-cons m
insert_tombstone-Memᴰ t (u ∷ us) {x} m = elim (Bool-cases (sorts_before u t)) [
  | inl e ↦
      elim (Memᴰ-cons
        (subst (λ b. Memᴰ x (if b then u ∷ insert_tombstone t us else t ∷ u ∷ us)) e m)) [
          | inl here ↦ inr (Memᴰ.head here)
          | inr there ↦ elim (insert_tombstone-Memᴰ t us there) [
            | inl same ↦ inl same
            | inr at ↦ inr (Memᴰ.tail at)
          ]
        ]
  | inr e ↦
      Memᴰ-cons (subst (λ b. Memᴰ x (if b then u ∷ insert_tombstone t us else t ∷ u ∷ us)) e m)
]

sorted-Memᴰ : (ts : List Tombstone) {x : Tombstone} → Memᴰ x (sorted ts) → Memᴰ x ts
sorted-Memᴰ [] m = m
sorted-Memᴰ (t ∷ ts) m = elim (insert_tombstone-Memᴰ t (sorted ts) m) [
  | inl here ↦ Memᴰ.head here
  | inr there ↦ Memᴰ.tail (sorted-Memᴰ ts there)
]

-- A candidate is a tombstone of the table, at or before the effective number.
candidates-Memᴰ :
    (r : CompactRequest) (db : Database) {x : Tombstone}
    → Memᴰ x (candidates r db)
    → Memᴰ x db.tombstones × (x.1.deleted_at_seq ≤ effective_seq r db)
unfolding list_tombstones
candidates-Memᴰ r db {x} m =
    let (listed, below) = Memᴰ-keep (up_to (effective_seq r db)) _ m in
    let (at, within) = Memᴰ-keep (of_namespace r.namespace) db.tombstones (sorted-Memᴰ _ listed) in
    (at, ground (arith, below))

check_candidates-Memᴰ :
    (db : Database) (ts : List Tombstone) {x : Tombstone}
    → check_candidates db ts ≡ ok tt
    → Memᴰ x ts
    → check_candidate db x ≡ ok tt
unfolding check_candidates
check_candidates-Memᴰ db [] h m = elim m [ ]
check_candidates-Memᴰ db (t ∷ ts) h m =
    let (first, rest) = >>-eq-ok (check_candidate db t) (check_candidates db ts) h in
    elim (Memᴰ-cons m) [
      | inl here ↦ rw here first
      | inr there ↦ check_candidates-Memᴰ db ts rest there
    ]

is_live-none : (id : String) (db : Database) → is_live id db ≡ false → get_memory id db.rows ≡ none
is_live-none id db h = ground arith

check_candidate-clear :
    (db : Database) (x : Tombstone)
    → check_candidate db x ≡ ok tt
    → (get_memory x.0 db.rows ≡ none)
      × (has_events_at_or_before_seq x.1.deleted_at_seq x.0 db.events ≡ false)
unfolding check_candidate
check_candidate-clear db x h =
    let (dead, rest) = raise_if-eq-ok (is_live x.0 db) live_record_conflict _ h in
    (is_live-none x.0 db dead, ground (arith, rest))

-- What holds of an id whose tombstone is removed.
pub record Removable (db db' : Database) (id : String) (t : TombRow) : Type 0 where
  pub dead : get_memory id db.rows ≡ none
  pub trimmed : has_events_at_or_before_seq t.deleted_at_seq id db.events ≡ false
  pub noted : t.deleted_at_seq ≤ db'.compacted_tombstones_through_seq
  pub below : t.deleted_at_seq ≤ db.trimmed_through_seq

pub effective_seq-le :
    (r : CompactRequest) (db : Database)
    → (r.strict && ltb db.trimmed_through_seq r.through_seq) ≡ false
    → effective_seq r db ≤ db.trimmed_through_seq
effective_seq-le r db h = ground arith

new_watermark-ge :
    (r : CompactRequest) (db : Database) (n : ℕ) → n ≤ effective_seq r db → n ≤ new_watermark r db
new_watermark-ge r db n h = ground arith

delete_tombstones-Memᴰ :
    (ids : List String) (tombs : List Tombstone) {x : Tombstone}
    → Memᴰ x tombs
    → ¬ Memᴰ x (delete_tombstones ids tombs).0
    → Memᴰ x.0 ids
unfolding delete_tombstones
delete_tombstones-Memᴰ ids tombs {x} m gone =
    let clean = keep (λ id. not (is_blank id)) ids in
    elim (Bool-cases (contains clean x.0)) [
      | inl e ↦ (Memᴰ-keep (λ id. not (is_blank id)) ids (contains→Memᴰ clean x.0 e)).0
      | inr e ↦ absurd (gone (keep-Memᴰ (λ t. not (contains clean t.0)) m (rw e refl)))
    ]

-- The outcomes of a compaction that returns.
pub data Outcome (r : CompactRequest) (db db' : Database) : Type 0 where
  nothing : db' ≡ db → Outcome r db db'
  removed :
      (r.strict && ltb db.trimmed_through_seq r.through_seq) ≡ false
      → check_candidates db (candidates r db) ≡ ok tt
      → db' ≡ remove_candidates r db
      → Outcome r db db'

compact_listed-Outcome :
    (r : CompactRequest) (db db' : Database) (c : Compaction)
    → compact_listed r db ≡ ok (db', c)
    → Outcome r db db'
unfolding compact_listed
compact_listed-Outcome r db db' c h =
    let (_, h1) =
      raise_if-eq-ok (r.strict && beyond r.through_seq r.acked_cursor_seq)
        unacknowledged_tombstone_horizon _ h in
    let (guard, h2) =
      raise_if-eq-ok (r.strict && ltb db.trimmed_through_seq r.through_seq)
        events_not_trimmed_through_tombstone _ h1 in
    let (checked, h3) = >>-eq-ok (check_candidates db (candidates r db)) _ h2 in
    removed guard checked (ap (λ p. p.0) (ok-injective h3))

pub compact_tombstones-Outcome :
    (r : CompactRequest) (db db' : Database) (c : Compaction)
    → compact_tombstones r db ≡ ok (db', c)
    → Outcome r db db'
unfolding compact_tombstones
compact_tombstones-Outcome r db db' c h =
    elim (Bool-cases (any (up_to r.through_seq) (list_tombstones r.namespace db.tombstones))) [
      | inl e ↦ compact_listed-Outcome r db db' c (ground (arith, h))
      | inr e ↦ nothing (ground (arith, h))
    ]

candidate-Removable :
    (r : CompactRequest) (db : Database) (id : String) (t : TombRow)
    → (r.strict && ltb db.trimmed_through_seq r.through_seq) ≡ false
    → check_candidates db (candidates r db) ≡ ok tt
    → Memᴰ (id, t) (candidates r db)
    → Removable db (remove_candidates r db) id t
unfolding remove_candidates
candidate-Removable r db id t guard checked m =
    let (dead, trimmed) =
      check_candidate-clear db (id, t) (check_candidates-Memᴰ db (candidates r db) checked m) in
    let (at, below) = candidates-Memᴰ r db m in
    record {
      dead = dead;
      trimmed = trimmed;
      noted = new_watermark-ge r db t.deleted_at_seq below;
      below = omega (arith, below, effective_seq-le r db guard);
    }

one_tombstone :
    (id key : String) (t u : TombRow)
    → id ≡ key
    → u ≡ t
    → let x : Tombstone = (key, u) in x ≡ (id, t)
one_tombstone id key t u e f = cc

-- A tombstone that a compaction removes, and that is the only one of its id, is one of a memory
-- that is not live and of which no event up to the deletion is in the log; its number is covered by
-- the watermark, and the log is trimmed that far.
pub compact_tombstones-Removable :
    (r : CompactRequest) (db db' : Database) (c : Compaction) (id : String) (t : TombRow)
    → compact_tombstones r db ≡ ok (db', c)
    → Memᴰ (id, t) db.tombstones
    → ((u : TombRow) → Memᴰ (id, u) db.tombstones → u ≡ t)
    → ¬ Memᴰ (id, t) db'.tombstones
    → Removable db db' id t
unfolding remove_candidates
compact_tombstones-Removable r db db' c id t h at only gone =
    elim (compact_tombstones-Outcome r db db' c h) [
      | nothing same ↦ absurd (gone (rw same at))
      | removed guard checked same ↦
          let among : Memᴰ id (map (λ x. x.0) (candidates r db)) =
            delete_tombstones-Memᴰ (map (λ x. x.0) (candidates r db)) db.tombstones at
              (subst (λ (d : Database). ¬ Memᴰ (id, t) d.tombstones) same gone) in
          let ((key, u), m, e) = Memᴰ-map (λ (x : Tombstone). x.0) (candidates r db) among in
          rw same (
            candidate-Removable r db id t guard checked (
              subst (λ x. Memᴰ x (candidates r db))
                (one_tombstone id key t u e (only u (rw e (candidates-Memᴰ r db m).0))) m))
    ]
