-- ===== src/Policy/Disclosure/Report.antt =====
-- What the report says of a row that is withheld.
use hot_mem.Prelude.{
  ◌+◌, String, ◌≡◌, refl, sym, ap, ◌∙◌, inl, inr, true, Option, none, some, List, Result, ok,
  Bool-cases, is_empty, ok-injective,
}
use hot_mem.Json.{Fields}
use hot_mem.Policy.Errors.{PolicyError}
use hot_mem.Policy.Platform.{Platform}
use hot_mem.Policy.Grants.{SecretAction, ClassificationAction, CallerCredential}
use hot_mem.Policy.Context.{CallerContext, binding}
use hot_mem.Policy.Redaction.{Pattern}
use hot_mem.Policy.Disclosure.{
  DisclosureReport, record_omission, on_report, Disclosed, disclose_hits, disclose_secrets,
  disclose_bound, apply_disclosure_to_row,
}
use hot_mem.Policy.Disclosure.Secrets.{redact_row}
use hot_mem.Policy.Disclosure.Classified.{
  is_private_classified, effective_disclosure_actions, meta_of, tags_of,
}

-- One omission more, and nothing else counted.
abbrev pub Withheld : DisclosureReport → Disclosed → Type 0
Withheld before r =
    (after : DisclosureReport) × (r.report ≡ some after)
    × (after.omitted_count ≡ before.omitted_count + 1)
    × (after.redacted_count ≡ before.redacted_count)
    × (after.redacted_records ≡ before.redacted_records)

row_of :
    (x : Disclosed) {r : Disclosed}
    → let returned : Result PolicyError Disclosed = ok x in
      returned ≡ ok r → r.row ≡ none → x.row ≡ none
row_of x h e = sym (ap (λ (d : Disclosed). d.row) (ok-injective h)) ∙ e

record_omission-Withheld :
    (reason : String) (found : List String) (before : DisclosureReport) {r : Disclosed}
    → let returned : Result PolicyError Disclosed =
        ok (record {
          row = none;
          report = on_report (record_omission reason found) (some before);
        }) in
      returned ≡ ok r → Withheld before r
unfolding record_omission
record_omission-Withheld reason found before h = (
  record_omission reason found before,
  ap (λ (d : Disclosed). d.report) (ok-injective h),
  refl,
  refl,
  refl,
)

module _ (p : Platform) (engine : List Pattern) (row : Fields) (before : DisclosureReport) where
  disclose_secrets-Withheld :
      (action : SecretAction) {r : Disclosed}
      → disclose_secrets p engine action row (some before) ≡ ok r
      → r.row ≡ none
      → Withheld before r
  unfolding disclose_secrets disclose_hits
  disclose_secrets-Withheld SecretAction.allow h e = let kept = row_of _ h e in cc kept
  disclose_secrets-Withheld SecretAction.redact h e =
      elim (Bool-cases (is_empty (redact_row p engine row).hits)) [
        | inl clean ↦ let kept = row_of _ (rw clean at h) e in absurd (cc kept)
        | inr found ↦ let kept = row_of _ (rw found at h) e in absurd (cc kept)
      ]
  disclose_secrets-Withheld SecretAction.omit h e =
      elim (Bool-cases (is_empty (redact_row p engine row).hits)) [
        | inl clean ↦ let kept = row_of _ (rw clean at h) e in absurd (cc kept)
        | inr found ↦ record_omission-Withheld "policy_secret_omitted" _ before (rw found at h)
      ]
  disclose_secrets-Withheld SecretAction.fail_closed h e =
      elim (Bool-cases (is_empty (redact_row p engine row).hits)) [
        | inl clean ↦ let kept = row_of _ (rw clean at h) e in absurd (cc kept)
        | inr found ↦ let raised = rw found at h in absurd (cc raised)
      ]

  disclose_bound-Withheld :
      (secret : SecretAction) (classification : ClassificationAction) {r : Disclosed}
      → disclose_bound p engine secret classification row (some before) ≡ ok r
      → r.row ≡ none
      → Withheld before r
  unfolding disclose_bound
  disclose_bound-Withheld secret classification {r} h e =
      elim (Bool-cases (is_private_classified p (meta_of p row) (tags_of p row))) [
        | inr shared ↦ disclose_secrets-Withheld secret (rw shared at h) e
        | inl private ↦ by_action classification private h
      ]
    where
      by_action :
          (a : ClassificationAction)
          → is_private_classified p (meta_of p row) (tags_of p row) ≡ true
          → disclose_bound p engine secret a row (some before) ≡ ok r
          → Withheld before r
      by_action ClassificationAction.allow private h =
          disclose_secrets-Withheld secret (rw private at h) e
      by_action ClassificationAction.omit private h =
          record_omission-Withheld "policy_classification" _ before (rw private at h)
      by_action ClassificationAction.fail_closed private h =
          let raised = rw private at h in absurd (cc raised)

  -- If a row is withheld from a caller without an error, then the report that was passed in counts
  -- one omission more, and no redaction more.
  pub apply_disclosure_to_row-Withheld :
      (c : CallerContext) (operation : String) {r : Disclosed}
      → apply_disclosure_to_row p engine c row (some before) operation ≡ ok r
      → r.row ≡ none
      → Withheld before r
  unfolding apply_disclosure_to_row
  apply_disclosure_to_row-Withheld c operation {r} h e = by_binding (binding c) h
    where
      by_binding :
          (o : Option CallerCredential)
          → (elim o [
            | none ↦ ok (record { row = some row; report = some before })
            | some cred ↦
                let (secret, classification) = effective_disclosure_actions p c row operation in
                disclose_bound p engine secret classification row (some before)
          ])
            ≡ ok r
          → Withheld before r
      by_binding none h = let kept = row_of _ h e in absurd (cc kept)
      by_binding (some cred) h = disclose_bound-Withheld _ _ h e
