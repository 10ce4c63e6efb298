-- ===== src/Events/Tests.antt =====
-- Runs of the plan of a replay, and its theorems at concrete inputs.
mod Applied
use hot_mem.Prelude.{
  ℕ, String, ◌≡◌, ◌≢◌, refl, ap, ◌∙◌, ◌=ₛ◌, if◌then◌else◌, Bool, true, false, none, some, List, [],
  ◌∷◌, Result, ok, err, contains,
}
use hot_mem.Prelude.Strings.{strip, is_space}
use hot_mem.Json.{Value, str, obj, num, Fields, end, field, get, has, truthy}
use hot_mem.Policy.Platform.{Platform, str_or_empty}
use hot_mem.Events.Types.{
  Event, kind_of, updated, Source, Rules, reconstructing_event_types, ReplayError, conflicting,
}
use hot_mem.Events.Header.{
  Envelope, check_seq, check_version, check_id, check_namespace, check_origin, check_reconstructing,
  check_identified, check_identity, check_observational, check_typed, check_event,
}
use hot_mem.Events.Header.Origin.{check_event-ours}
use hot_mem.Events.Image.{Image, strip_envelope_keys, accepted_hashes, check_record, check_image}
use hot_mem.Events.State.{Live, Tomb, Sim}
use hot_mem.Events.Move.{
  update, Planned, Disposition, caught_up, is_dedupe_marker, held_by_other, apply_create,
  apply_update, apply_delete,
}
use hot_mem.Events.Move.Create.{decide_create}
use hot_mem.Events.Move.Update.{decide_update, decide_update_live}
use hot_mem.Events.Move.Delete.{deletion_time, decide_delete_live, decide_delete_at, decide_delete}
use hot_mem.Events.Plan.{advance, deleted_image, decide, plan_header, plan_event, plan_events}
use hot_mem.Events.Plan.Justified.{Hashed}
use hot_mem.Events.Plan.Grounded.{Grounded, decide-Grounded}
use hot_mem.Events.Plan.Consistent.{IsConsistent, plan_events-IsConsistent, plan_events_unique}
use hot_mem.Events.Plan.Permanent.{Buried, plan_events-Buried}
use hot_mem.Events.Plan.Order.{Follow, plan_events-Follow}
use hot_mem.Events.Plan.Frame.{Same, plan_events-Same}

abbrev platform : Platform
platform = record {
  show = λ v. "?";
  lower = λ s. s;
  sha256 = λ s. s;
  loads = λ s. none;
  dumps = λ v. "";
}

-- The text of a fact is its hash and its fingerprint.
abbrev rules : Rules
rules = record {
  normalize = λ d. some d;
  validate = λ d. [];
  fingerprint = λ d. str_or_empty platform (get "fact_text" d);
  content_hash = λ identifier text. text;
  normalize_source_uri = λ s. s;
  file_content_hash = λ identifier ref. "file";
  legacy_file_content_hashes = λ identifier ref. [];
  to_int = λ v. some v;
}

abbrev source : Source
source = record {
  mount_id = "mount";
  replica_id = "replica";
  history_id = "history";
  legacy_history = false;
}

abbrev origin : Fields
origin =
    field "mount_id" (str "mount")
      (field "replica_id" (str "replica") (field "history_id" (str "history") end))

-- A payload of version 1.
abbrev versioned : String → String → Fields → Fields
versioned id text rest = field "payload_schema_version" (num false 1 0) (
    field "id" (str id) (
      field "namespace" (str "home") (
        field "identifier" (str "fact") (
          field "fact_text" (str text) (
            field "content_hash" (str text)
              (field "record_fingerprint" (str text) (field "origin" (obj origin) rest)))))))

abbrev event : ℕ → String → String → Fields → Event
event seq etype id payload = record {
  seq = num false seq 0;
  event_id = str "event";
  event_type = str etype;
  memory_id = str id;
  namespace = str "home";
  occurred_at = str "now";
  payload = obj payload;
}

abbrev creation : Event
creation = event 1 "memory.created" "m1" (versioned "m1" "one" end)

abbrev change : Event
change = event 2 "memory.updated" "m1" (
    versioned "m1" "two" (
      field "previous_content_hash" (str "one")
        (field "previous_record_fingerprint" (str "one") end)))

abbrev deletion : Event
deletion = event 3 "memory.deleted" "m1" (versioned "m1" "two" end)

abbrev empty : Sim
empty = record {
  live = λ id. none;
  index = λ ns hash. none;
  tombs = λ id. none;
  marks = λ id. none;
  mutated = λ id. false;
  created = λ id. false;
  legacy_created = λ id. false;
  legacy_deduped = λ id. false;
}

program : Unit {0}
unfolding truthy strip is_space get has kind_of check_seq check_version check_id check_namespace
    check_origin check_reconstructing check_identified check_identity check_observational
    check_typed check_event strip_envelope_keys accepted_hashes check_record check_image caught_up
    is_dedupe_marker held_by_other decide_create decide_update_live decide_update deletion_time
    decide_delete_live decide_delete_at decide_delete advance deleted_image decide plan_header
    plan_event plan_events
program = tt

abbrev run : List Event → Sim → Result ReplayError (List Planned × Sim)
run events s = plan_events platform rules reconstructing_event_types source 0 events s

abbrev or_else : Result ReplayError (List Planned × Sim) → List Planned × Sim
or_else (ok r) = r
or_else (err e) = ([], empty)

abbrev ran : List Planned × Sim
ran = or_else (run (creation ∷ change ∷ deletion ∷ []) empty)

abbrev changed : List Planned × Sim
changed = or_else (run (creation ∷ change ∷ []) empty)

abbrev planned_of : Disposition → ℕ → String → Planned
planned_of d n text = record {
  disposition = d;
  seq = n;
  namespace = "home";
  content_hash = text;
  fingerprint = text;
}

runs :
    ran.0
    ≡ planned_of apply_create 1 "one"
      ∷ planned_of apply_update 2 "two"
      ∷ planned_of apply_delete 3 "two"
      ∷ []
unfolding program
runs = refl

-- A record that is buried cannot be created again.
buried_for_good :
    run
      (creation ∷ change ∷ deletion ∷ event 4 "memory.created" "m1" (versioned "m1" "one" end) ∷ [])
      empty
    ≡ err (record {
      reason = "tombstoned_record_resurrection";
      event_seq = num false 4 0;
      event_id = "event";
      memory_id = "m1";
    })
unfolding program
buried_for_good = refl

empty-IsConsistent : IsConsistent empty
empty-IsConsistent = record { indexed = λ id live at. cc; dead = λ id tomb at. cc }

abbrev live_two : Live
live_two = record {
  identifier = "fact";
  namespace = "home";
  content_hash = "two";
  fingerprint = "two";
}

plan_events_unique_example : let m1 : String = "m1" in m1 ≡ m1
unfolding program
plan_events_unique_example =
    plan_events_unique platform rules reconstructing_event_types source 0 (creation ∷ change ∷ [])
      empty changed.0 changed.1 "m1" "m1" live_two live_two empty-IsConsistent refl refl refl refl
      refl refl

plan_events-Follow_example : Follow 0 (creation ∷ change ∷ deletion ∷ []) ran.0
unfolding program
plan_events-Follow_example =
    plan_events-Follow platform rules reconstructing_event_types source 0
      (creation ∷ change ∷ deletion ∷ []) empty ran.0 ran.1 refl

abbrev buried : Tomb
buried = record {
  namespace = "home";
  content_hash = "nine";
  fingerprint = "nine";
  deleted_at = "then";
  deleted_at_seq = 1;
  delete_event_id = "old";
  origin_history_id = "history";
}

abbrev with_tomb : Sim
with_tomb = record empty { tombs = λ id. if id =ₛ "m9" then some buried else none }

abbrev ran_with_tomb : List Planned × Sim
ran_with_tomb = or_else (run (creation ∷ []) with_tomb)

plan_events-Buried_example : Buried "m9" buried ran_with_tomb.1
unfolding program
plan_events-Buried_example =
    plan_events-Buried platform rules reconstructing_event_types source 0 (creation ∷ []) with_tomb
      ran_with_tomb.0 ran_with_tomb.1 "m9" buried refl (refl, refl)

abbrev is_m9 : Value → Bool
is_m9 (obj d) = let id = get "id" d in elim id [ str s ↦ s =ₛ "m9" | _ ↦ false ]
is_m9 v = false

names_m1 : (payload : Fields) → creation.payload ≡ obj payload → get "id" payload ≢ str "m9"
unfolding program
names_m1 payload is named =
    let e : false ≡ is_m9 (obj payload) = ap is_m9 is in
    let f : is_m9 (obj payload) ≡ true = rw (named, is_m9) refl in cc (e ∙ f)

plan_events-Same_example : Same "m9" with_tomb ran_with_tomb.1
unfolding program
plan_events-Same_example =
    plan_events-Same platform rules reconstructing_event_types source 0 (creation ∷ []) with_tomb
      ran_with_tomb.0 ran_with_tomb.1 "m9" refl (names_m1, tt)

abbrev change_envelope : Envelope
change_envelope = record {
  seq = 2;
  event_id = "event";
  kind = updated;
  id = "m1";
  namespace = "home";
  is_v1 = true;
  payload = versioned "m1" "two" (
      field "previous_content_hash" (str "one")
        (field "previous_record_fingerprint" (str "one") end));
}

abbrev live_one : Live
live_one = record {
  identifier = "fact";
  namespace = "home";
  content_hash = "one";
  fingerprint = "one";
}

abbrev with_one : Sim
with_one = record empty { live = λ id. if id =ₛ "m1" then some live_one else none }

abbrev image_two : Image
image_two = record { content_hash = "two"; fingerprint = "two" }

decide-Grounded_example :
    Grounded platform source change_envelope with_one updated image_two (update live_one)
    × Hashed platform change_envelope with_one image_two (update live_one)
unfolding program
decide-Grounded_example =
    decide-Grounded platform rules change_envelope updated source change with_one image_two
      (update live_one) refl
