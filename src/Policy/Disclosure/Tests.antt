-- ===== src/Policy/Disclosure/Tests.antt =====
-- Runs of the disclosure and of the attribution of writes, and their theorems at concrete inputs.
use mathlib.Core.List.{Memᴰ}
use hot_mem.Prelude.{String, ◌≡◌, ◌≢◌, refl, none, some, List, [], ◌∷◌, ok, if◌then◌else◌, ◌=ₛ◌}
use hot_mem.Prelude.Strings.{strip, str_len, has_control, is_space}
use hot_mem.Json.{null, str, obj, arr, cons, nil, Value, Fields, end, field, get, has, put, truthy}
use hot_mem.Policy.Validation.{validate_context_field, validate_envelope_version}
use hot_mem.Policy.Grants.{SecretAction, CallerCredential, allows_row, grants}
use hot_mem.Policy.Context.{CallerContext}
use hot_mem.Policy.Config.{check_claim, claimed_of_others}
use hot_mem.Policy.Config.Resolve.{Entitled}
use hot_mem.Policy.Attribution.{
  validate_write_source, check_source, Override, Attribution, check_caller_claim, effective_field,
  effective_version, check_claims, validate_write_session_and_harness,
}
use hot_mem.Policy.Attribution.Entitlement.{Keeps, validate_write_session_and_harness-Entitled}
use hot_mem.Policy.Redaction.{
  Pattern, redact_text, scan_and_redact_text, redact_value, redact_structure, sorted_set,
}
use hot_mem.Policy.Disclosure.{
  DisclosureReport, Disclosed, record_redaction, record_omission, disclose_hits, disclose_secrets,
  disclose_bound, apply_disclosure_to_row,
}
use hot_mem.Policy.Disclosure.Classified.{
  is_private_classified, effective_disclosure_actions, meta_of, tags_of, provenance_of,
}
use hot_mem.Policy.Disclosure.Secrets.{
  redact_text_value, redact_text_fields, redact_metadata, redact_provenance, redact_tags,
  redact_row,
}
use hot_mem.Policy.Disclosure.Redacted.{redacted_text}
use hot_mem.Policy.Disclosure.Outcome.{apply_disclosure_to_row-redacts}
use hot_mem.Policy.Tests.{toy, alice, config, alice_context}

program : Unit {0}
unfolding strip str_len has_control is_space get has put truthy validate_context_field
    validate_envelope_version allows_row grants check_claim claimed_of_others check_source
    validate_write_source check_caller_claim effective_field effective_version check_claims
    validate_write_session_and_harness redact_text scan_and_redact_text redact_value
    redact_structure sorted_set record_redaction record_omission is_private_classified
    effective_disclosure_actions meta_of tags_of redact_text_value redact_text_fields
    redact_metadata provenance_of redact_provenance redact_tags redact_row disclose_hits
    disclose_secrets disclose_bound apply_disclosure_to_row
program = tt

abbrev engine : List Pattern
engine =
    record {
      kind = "api_key";
      count = λ t. if t =ₛ "key=abcd" then 1 else 0;
      sub = λ t. "[REDACTED:api_key]";
    }
    ∷ []

abbrev bound_by : SecretAction → CallerCredential
bound_by action = record alice { secret_action = some action }

abbrev context_by : SecretAction → CallerContext
context_by action = record alice_context { credential = some (bound_by action) }

abbrev row_with : String → Fields
row_with fact =
    field "id" (str "m1") (field "namespace" (str "home") (field "fact_text" (str fact) end))

abbrev empty_report : DisclosureReport
empty_report = record {
  redacted_count = 0;
  redacted_records = 0;
  omitted_count = 0;
  reasons = [];
  patterns = [];
}

abbrev redacted : Disclosed
redacted = record {
  row = some (row_with "[REDACTED:api_key]");
  report = some (record {
    redacted_count = 1;
    redacted_records = 1;
    omitted_count = 0;
    reasons = [];
    patterns = "api_key" ∷ [];
  });
}

redacted_test :
    apply_disclosure_to_row toy engine
      (context_by SecretAction.redact)
      (row_with "key=abcd")
      (some empty_report)
      "read"
    ≡ ok redacted
unfolding program
redacted_test = refl

is_redacting :
    (effective_disclosure_actions toy
      (context_by SecretAction.redact)
      (row_with "key=abcd")
      "read").0
    ≢ SecretAction.allow
unfolding program
is_redacting e = cc e

apply_disclosure_to_row-redacts_example :
    get "fact_text" (row_with "[REDACTED:api_key]")
    ≡ redacted_text engine (get "fact_text" (row_with "key=abcd"))
apply_disclosure_to_row-redacts_example =
    apply_disclosure_to_row-redacts toy engine (row_with "key=abcd") (some empty_report)
      (context_by SecretAction.redact) "read" (bound_by SecretAction.redact) refl "fact_text"
      is_redacting redacted_test refl (Memᴰ.head refl)

abbrev plain : Disclosed
plain = record { row = some (row_with "plain"); report = some empty_report }

plain_test :
    apply_disclosure_to_row toy engine
      (context_by SecretAction.omit)
      (row_with "plain")
      (some empty_report)
      "read"
    ≡ ok plain
unfolding program
plain_test = refl

is_omitting :
    (effective_disclosure_actions toy (context_by SecretAction.omit) (row_with "plain") "read").0
    ≡ SecretAction.omit
unfolding program
is_omitting = refl

abbrev from_payload : Override
from_payload = record {
  session_id = str "s1";
  harness_id = null;
  envelope_version = null;
  caller_id_claim = str "alice";
}

abbrev attributed : Attribution
attributed = record { session = "s1"; harness = ""; version = "hotmem-session-v1" }

attributed_test :
    validate_write_session_and_harness config alice_context from_payload ≡ ok attributed
unfolding program
attributed_test = refl

validate_write_session_and_harness-Entitled_example :
    Entitled (λ x. x.allowed_sessions) config alice "s1"
    × Entitled (λ x. x.allowed_harnesses) config alice ""
    × Keeps "s1" "s1"
    × Keeps "" ""
validate_write_session_and_harness-Entitled_example =
    validate_write_session_and_harness-Entitled config alice_context alice from_payload refl refl
      attributed_test

source_test : validate_write_source config alice_context (str " notes ") ≡ ok tt
unfolding program
source_test = refl

abbrev clean_metadata : Value
clean_metadata = obj (field "note" (arr (cons (str "plain") nil)) end)

clean_test : (redact_structure engine clean_metadata).1 ≡ []
unfolding program
clean_test = refl

abbrev withheld : Disclosed
withheld = record {
  row = none;
  report = some (record {
    redacted_count = 0;
    redacted_records = 0;
    omitted_count = 1;
    reasons = "policy_secret_omitted" ∷ [];
    patterns = "api_key" ∷ [];
  });
}

withheld_test :
    apply_disclosure_to_row toy engine
      (context_by SecretAction.omit)
      (row_with "key=abcd")
      (some empty_report)
      "read"
    ≡ ok withheld
unfolding program
withheld_test = refl
