-- ===== src/Policy/Disclosure.antt =====
-- `apply_disclosure_to_row` of src/hotmem/policy.py and what it uses: what of a row is disclosed.
pub mod Classified
pub mod Secrets
pub mod Redacted
pub mod Stages
pub mod Outcome
pub mod Report
mod Tests
use Prim.Native.Char.{code}
use hot_mem.Prelude.{
  ℕ, ◌+◌, String, Bool, true, false, ◌&&◌, ◌||◌, not, Option, none, some, List, [], ◌∷◌, ◌++◌, map,
  if◌then◌else◌, contains, is_empty, or_else, get_or, ◌=ₛ◌, ◌==◌, Result, ok, err,
}
use hot_mem.Prelude.Strings.{strip, is_blank}
use hot_mem.Json.{
  Value, str, obj, arr, bool, null, Items, nil, cons, Fields, end, field, get, has, put, truthy,
}
use hot_mem.Policy.Errors.{PolicyError}
use hot_mem.Policy.Platform.{Platform, to_str, str_or_empty}
use hot_mem.Policy.Grants.{
  SecretAction, ClassificationAction, ShareApproval, CallerCredential, allows_row, grants,
}
use hot_mem.Policy.Context.{CallerContext, binding}
use hot_mem.Policy.Redaction.{
  Pattern, Hit, scan_and_redact_text, redact_value, redact_items, redact_fields, sorted_set,
}
use hot_mem.Policy.Disclosure.Classified.{
  private_classifications, is_private_word, partition, tag_keys, is_private_tag, any_private_tag,
  is_private_classified, matched_share, effective_disclosure_actions, meta_of, tags_of,
  provenance_of, tags_value, row_id_of,
}
use hot_mem.Policy.Disclosure.Secrets.{
  Draft, is_end, replace, text_fields, redact_text_value, redact_text_field, redact_text_fields,
  redact_metadata, redact_provenance, redact_tags, redact_row,
}

-- `DisclosureReport`; the sets are lists.
pub record DisclosureReport : Type 0 where
  pub redacted_count : ℕ
  pub redacted_records : ℕ
  pub omitted_count : ℕ
  pub reasons : List String
  pub patterns : List String

-- `set.add`
abbrev pub add : String → List String → List String
add x xs = if contains xs x then xs else x ∷ xs

abbrev pub update : List String → List String → List String
update [] xs = xs
update (y ∷ ys) xs = update ys (add y xs)

unfoldable pub record_redaction : String → ℕ → DisclosureReport → DisclosureReport
record_redaction pattern count r = record r {
  redacted_count = r.redacted_count + count;
  patterns = add pattern r.patterns;
}

unfoldable pub record_omission : String → List String → DisclosureReport → DisclosureReport
record_omission reason found r = record r {
  omitted_count = r.omitted_count + 1;
  reasons = add reason r.reasons;
  patterns = update found r.patterns;
}

-- What a call returns: the row to disclose, or `none`, and the report as it stands then.
pub record Disclosed : Type 0 where
  pub row : Option Fields
  pub report : Option DisclosureReport

abbrev pub on_report :
    (DisclosureReport → DisclosureReport) → Option DisclosureReport → Option DisclosureReport
on_report change none = none
on_report change (some r) = some (change r)

abbrev pub blocked : Fields → PolicyError
blocked detail = record { status_code = 403; error = "policy_disclosure_blocked"; detail = detail }

abbrev pub texts : List String → Items
texts [] = nil
texts (x ∷ xs) = cons (str x) (texts xs)

-- One redaction is recorded for each hit.
abbrev pub record_redactions : List Hit → DisclosureReport → DisclosureReport
record_redactions [] r = r
record_redactions (h ∷ rest) r = record_redactions rest (record_redaction h.kind h.count r)

-- What happens to a row with hits.
unfoldable pub disclose_hits :
    SecretAction → String → Draft → Option DisclosureReport → Result PolicyError Disclosed
disclose_hits SecretAction.fail_closed row_id d report =
    let matched = sorted_set (map (λ (h : Hit). h.kind) d.hits) in
    err (
      blocked (
        field "reason" (str "secret_detected")
          (field "patterns" (arr (texts matched)) (field "memory_id" (str row_id) end))))
disclose_hits SecretAction.omit row_id d report =
    let matched = sorted_set (map (λ (h : Hit). h.kind) d.hits) in
    ok (record {
      row = none;
      report = on_report (record_omission "policy_secret_omitted" matched) report;
    })
disclose_hits action row_id d report = ok (record {
  row = some d.out;
  report =
      on_report
        (λ r. record_redactions d.hits (record r { redacted_records = r.redacted_records + 1 }))
        report;
})

module _ (p : Platform) (engine : List Pattern) where
  -- The rest of the function, once the classification has let the row through.
  unfoldable pub disclose_secrets :
      SecretAction → Fields → Option DisclosureReport → Result PolicyError Disclosed
  disclose_secrets SecretAction.allow row report = ok (record { row = some row; report = report })
  disclose_secrets action row report =
      let d = redact_row p engine row in
      if is_empty d.hits
      then ok (record { row = some d.out; report = report })
      else disclose_hits action (row_id_of p row) d report

  unfoldable pub disclose_bound :
      SecretAction
      → ClassificationAction
      → Fields
      → Option DisclosureReport
      → Result PolicyError Disclosed
  disclose_bound secret classification row report =
      if is_private_classified p (meta_of p row) (tags_of p row)
      then elim classification [
        | ClassificationAction.fail_closed ↦ err (
            blocked (
              field "reason" (str "private_classification")
                (field "memory_id" (str (row_id_of p row)) end)))
        | ClassificationAction.omit ↦ ok (record {
          row = none;
          report = on_report (record_omission "policy_classification" []) report;
        })
        | ClassificationAction.allow ↦ disclose_secrets secret row report
      ]
      else disclose_secrets secret row report

  unfoldable pub apply_disclosure_to_row :
      CallerContext → Fields → Option DisclosureReport → String → Result PolicyError Disclosed
  apply_disclosure_to_row c row report operation = elim (binding c) [
    | none ↦ ok (record { row = some row; report = report })
    | some cred ↦
        let (secret, classification) = effective_disclosure_actions p c row operation in
        disclose_bound secret classification row report
  ]
