-- ===== src/Events/State.antt =====
-- The simulated target state of a replay's first pass, in src/hotmem/events.py.
pub mod Pairs
pub mod Maps
use hot_mem.Prelude.{ℕ, String, Bool, true, false, Option, none, some, if◌then◌else◌, ◌=ₛ◌}

-- A dictionary with texts as keys, and a set of texts.
abbrev pub Map : Type 0 → Type 0
Map A = String → Option A

abbrev pub Set : Type 0
Set = String → Bool

abbrev pub put_at : {A : Type 0} → String → A → Map A → Map A
put_at k v m j = if k =ₛ j then some v else m j

abbrev pub drop_at : {A : Type 0} → String → Map A → Map A
drop_at k m j = if k =ₛ j then none else m j

abbrev pub add_to : String → Set → Set
add_to k s j = if k =ₛ j then true else s j

abbrev pub discard : String → Set → Set
discard k s j = if k =ₛ j then false else s j

pub record Live : Type 0 where
  pub identifier : String
  pub namespace : String
  pub content_hash : String
  pub fingerprint : String

pub record Tomb : Type 0 where
  pub namespace : String
  pub content_hash : String
  pub fingerprint : String
  pub deleted_at : String
  pub deleted_at_seq : ℕ
  pub delete_event_id : String
  pub origin_history_id : String

pub record Mark : Type 0 where
  pub namespace : String
  pub content_hash : String
  pub fingerprint : String
  pub last_seq : ℕ
  pub last_event_id : String
  pub history_id : String

-- The ids that hold a pair of a namespace and a content hash.
abbrev pub Index : Type 0
Index = String → String → Option String

abbrev pub bind_pair : String → String → String → Index → Index
bind_pair ns hash id index n h =
    if ns =ₛ n then if hash =ₛ h then some id else index n h else index n h

abbrev pub free_pair : String → String → Index → Index
free_pair ns hash index n h = if ns =ₛ n then if hash =ₛ h then none else index n h else index n h

-- The dictionaries and sets that the loop over the events carries.
pub record Sim : Type 0 where
  pub live : Map Live
  pub index : Index
  pub tombs : Map Tomb
  pub marks : Map Mark
  pub mutated : Set
  pub created : Set
  pub legacy_created : Set
  pub legacy_deduped : Set
