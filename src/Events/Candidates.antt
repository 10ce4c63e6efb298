-- ===== src/Events/Candidates.antt =====
-- `_load_target_replay_candidates` of src/hotmem/events.py: the part of the target that the first pass
-- looks at. `get_memories`, `get_memories_by_identity`, `get_tombstones` and `get_replay_watermarks`
-- of src/hotmem/db.py select the rows of a list of keys; here the rows are filtered by membership.
use hot_mem.Prelude.{
  String, Bool, true, false, ◌&&◌, not, Option, none, some, List, [], ◌∷◌, any, if◌then◌else◌,
  contains, ◌=ₛ◌,
}
use hot_mem.Prelude.Strings.{is_blank}
use hot_mem.Json.{Value, str, obj, Fields, field, get, truthy}
use hot_mem.Policy.Platform.{Platform, to_str, str_or_empty}
use hot_mem.Delta.Store.{Row}
use hot_mem.Events.Types.{Event, Rules}
use hot_mem.Events.Image.{strip_envelope_keys}
use hot_mem.Events.State.{Map, put_at, bind_pair, Live, Tomb, Sim}
use hot_mem.Events.Target.{TombRow, Target}

abbrev is_present : {A : Type 0} → Option A → Bool
is_present none = false
is_present (some a) = true

pub record Pair : Type 0 where
  pub namespace : String
  pub content_hash : String

abbrev has_pair : String → String → List Pair → Bool
has_pair ns hash pairs = any (λ x. x.namespace =ₛ ns && x.content_hash =ₛ hash) pairs

module _ (p : Platform) where
  -- `a or b`
  abbrev or_else : Value → Value → Value
  or_else a b = if truthy a then a else b

  unfoldable pub candidate_ids : List Event → List String
  candidate_ids [] = []
  candidate_ids (e ∷ events) =
      let rest = candidate_ids events in
      elim e.payload [
        | obj payload ↦
            let id = or_else (get "id" payload) e.memory_id in
            if truthy id then to_str p id ∷ rest else rest
        | _ ↦ rest
      ]

  abbrev pair_at : String → Value → List Pair → List Pair
  pair_at ns v rest =
      if truthy v then record { namespace = ns; content_hash = to_str p v } ∷ rest else rest

  unfoldable pub candidate_pairs : List Event → List Pair
  candidate_pairs [] = []
  candidate_pairs (e ∷ events) =
      let rest = candidate_pairs events in
      elim e.payload [
        | obj payload ↦
            let ns = str_or_empty p (or_else (get "namespace" payload) e.namespace) in
            pair_at ns (get "content_hash" payload)
              (pair_at ns (get "previous_content_hash" payload) rest)
        | _ ↦ rest
      ]

  module _ (rules : Rules) where
    abbrev pub row_fields : Row → Fields
    row_fields r =
        field "id" (str r.id) (
          field "namespace" (str r.namespace) (field "content_hash" (str r.content_hash) r.columns))

    -- `_safe_record_fingerprint`
    unfoldable pub safe_record_fingerprint : Fields → String
    safe_record_fingerprint row = elim (rules.normalize (strip_envelope_keys row)) [
      | none ↦ ""
      | some normalized ↦ rules.fingerprint normalized
    ]

    abbrev pub live_of_row : Row → Live
    live_of_row r = record {
      identifier = str_or_empty p (get "identifier" r.columns);
      namespace = r.namespace;
      content_hash = r.content_hash;
      fingerprint = safe_record_fingerprint (row_fields r);
    }

    -- The rows of the candidate ids.
    unfoldable pub load_ids : List String → List Row → Sim → Sim
    load_ids ids [] s = s
    load_ids ids (r ∷ rows) s = load_ids ids rows (
        if contains ids r.id
        then record s {
          live = put_at r.id (live_of_row r) s.live;
          index =
              if is_blank r.content_hash
              then s.index
              else bind_pair r.namespace r.content_hash r.id s.index;
        }
        else s)

    -- The rows of the candidate pairs, which do not displace what is loaded.
    unfoldable pub load_pairs : List Pair → List Row → Sim → Sim
    load_pairs pairs [] s = s
    load_pairs pairs (r ∷ rows) s = load_pairs pairs rows (
        if not (is_blank r.id) && has_pair r.namespace r.content_hash pairs
        then record s {
          index =
              if is_present (s.index r.namespace r.content_hash)
              then s.index
              else bind_pair r.namespace r.content_hash r.id s.index;
          live = if is_present (s.live r.id) then s.live else put_at r.id (live_of_row r) s.live;
        }
        else s)

    abbrev pub tomb_of : TombRow → Tomb
    tomb_of t = record {
      namespace = t.namespace;
      content_hash = t.content_hash;
      fingerprint = t.record_fingerprint;
      deleted_at = t.deleted_at;
      deleted_at_seq = t.deleted_at_seq;
      delete_event_id = t.delete_event_id;
      origin_history_id = t.origin_history_id;
    }

    abbrev select : {A B : Type 0} → List String → (A → B) → Map A → Map B
    select ids f m id =
        if contains ids id then elim (m id) [ none ↦ none | some a ↦ some (f a) ] else none

    abbrev pub empty : Sim
    empty = record {
      live = λ id. none;
      index = λ ns hash. none;
      tombs = λ id. none;
      marks = λ id. none;
      mutated = λ id. false;
      created = λ id. false;
      legacy_created = λ id. false;
      legacy_deduped = λ id. false;
    }

    unfoldable pub load_candidates : List Event → Target → Sim
    load_candidates events t =
        let ids = candidate_ids events in
        let s = load_pairs (candidate_pairs events) t.rows (load_ids ids t.rows empty) in
        record s { tombs = select ids tomb_of t.tombs; marks = select ids (λ m. m) t.marks }
