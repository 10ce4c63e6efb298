-- ===== src/Policy/Disclosure/Outcome.antt =====
-- What `apply_disclosure_to_row` returns under each policy.
use mathlib.Core.List.{Memᴰ}
use hot_mem.Prelude.{
  String, ◌≡◌, ◌≢◌, refl, sym, ap, ◌∙◌, ◌⊎◌, inl, inr, Bool, true, false, Option, some, List, [],
  Result, ok, Bool-cases, is_empty, ok-injective,
}
use hot_mem.Json.{Fields, get}
use hot_mem.Policy.Errors.{PolicyError}
use hot_mem.Policy.Platform.{Platform}
use hot_mem.Policy.Grants.{SecretAction, ClassificationAction, CallerCredential}
use hot_mem.Policy.Context.{CallerContext, binding}
use hot_mem.Policy.Redaction.{Pattern}
use hot_mem.Policy.Disclosure.{
  DisclosureReport, Disclosed, disclose_hits, disclose_secrets, disclose_bound,
  apply_disclosure_to_row,
}
use hot_mem.Policy.Disclosure.Secrets.{redact_row, text_fields}
use hot_mem.Policy.Disclosure.Classified.{
  meta_of, tags_of, is_private_classified, effective_disclosure_actions,
}
use hot_mem.Policy.Disclosure.Redacted.{redacted_text, is_empty-eq-true}
use hot_mem.Policy.Disclosure.Stages.{redact_row-in, redact_row-clean}

row_of :
    (x : Disclosed) {r : Disclosed} {out : Fields}
    → let returned : Result PolicyError Disclosed = ok x in
      returned ≡ ok r → r.row ≡ some out → x.row ≡ some out
row_of x h e = sym (ap (λ (d : Disclosed). d.row) (ok-injective h)) ∙ e

some-injective : {x y : Fields} → some x ≡ some y → y ≡ x
some-injective h = cc

module _ (p : Platform) (engine : List Pattern) (row : Fields)
    (report : Option DisclosureReport) where
  abbrev is_private : Bool
  is_private = is_private_classified p (meta_of p row) (tags_of p row)

  abbrev Passed : SecretAction → Fields → Type 0
  Passed action out =
      (out ≡ (redact_row p engine row).out)
      × ((action ≡ SecretAction.redact) ⊎ ((redact_row p engine row).hits ≡ []))

  unhit :
      (action : SecretAction) {r : Disclosed} {out : Fields}
      → let returned : Result PolicyError Disclosed =
          ok (record { row = some (redact_row p engine row).out; report = report }) in
        returned ≡ ok r
        → r.row ≡ some out
        → is_empty (redact_row p engine row).hits ≡ true
        → Passed action out
  unhit action h e clean = (some-injective (row_of _ h e), inr (is_empty-eq-true _ clean))

  -- A row that passes the secret action is the draft; only redaction lets hits pass.
  disclose_secrets-row :
      (action : SecretAction) {r : Disclosed} {out : Fields}
      → action ≢ SecretAction.allow
      → disclose_secrets p engine action row report ≡ ok r
      → r.row ≡ some out
      → Passed action out
  unfolding disclose_secrets disclose_hits
  disclose_secrets-row SecretAction.allow ne h e = absurd (ne refl)
  disclose_secrets-row SecretAction.redact ne h e =
      elim (Bool-cases (is_empty (redact_row p engine row).hits)) [
        | inl clean ↦ unhit SecretAction.redact (rw clean at h) e clean
        | inr found ↦ (some-injective (row_of _ (rw found at h) e), inl refl)
      ]
  disclose_secrets-row SecretAction.omit ne h e =
      elim (Bool-cases (is_empty (redact_row p engine row).hits)) [
        | inl clean ↦ unhit SecretAction.omit (rw clean at h) e clean
        | inr found ↦ let gone = row_of _ (rw found at h) e in cc gone
      ]
  disclose_secrets-row SecretAction.fail_closed ne h e =
      elim (Bool-cases (is_empty (redact_row p engine row).hits)) [
        | inl clean ↦ unhit SecretAction.fail_closed (rw clean at h) e clean
        | inr found ↦ let raised = rw found at h in cc raised
      ]

  abbrev Released : SecretAction → ClassificationAction → Disclosed → Type 0
  Released secret classification r =
      ((is_private ≡ false) ⊎ (classification ≡ ClassificationAction.allow))
      × (disclose_secrets p engine secret row report ≡ ok r)

  disclose_bound-row :
      (secret : SecretAction) (classification : ClassificationAction) {r : Disclosed} {out : Fields}
      → disclose_bound p engine secret classification row report ≡ ok r
      → r.row ≡ some out
      → Released secret classification r
  unfolding disclose_bound
  disclose_bound-row secret classification {r} {out} h e = elim (Bool-cases is_private) [
    | inr shared ↦ (inl shared, rw shared at h)
    | inl private ↦ by_action classification private h
  ]
    where
      by_action :
          (a : ClassificationAction)
          → is_private ≡ true
          → disclose_bound p engine secret a row report ≡ ok r
          → Released secret a r
      by_action ClassificationAction.allow private h = (inr refl, rw private at h)
      by_action ClassificationAction.omit private h =
          let gone = row_of _ (rw private at h) e in cc gone
      by_action ClassificationAction.fail_closed private h =
          let raised = rw private at h in cc raised

  module _ (c : CallerContext) (operation : String) (cred : CallerCredential)
      (bound : binding c ≡ some cred) where
    abbrev actions : SecretAction × ClassificationAction
    actions = effective_disclosure_actions p c row operation

    apply_disclosure_to_row-bound :
        {r : Disclosed}
        → apply_disclosure_to_row p engine c row report operation ≡ ok r
        → disclose_bound p engine actions.0 actions.1 row report ≡ ok r
    unfolding apply_disclosure_to_row
    apply_disclosure_to_row-bound h = rw (bound, apply_disclosure_to_row) at h

    -- If a caller is bound by a credential and the policy does not allow secrets in the row, then a
    -- row that is returned has each of its text fields with the secrets replaced.
    pub apply_disclosure_to_row-redacts :
        {r : Disclosed} {out : Fields} (key : String)
        → actions.0 ≢ SecretAction.allow
        → apply_disclosure_to_row p engine c row report operation ≡ ok r
        → r.row ≡ some out
        → Memᴰ key text_fields
        → get key out ≡ redacted_text engine (get key row)
    apply_disclosure_to_row-redacts {r} {out} key ne h e m =
        let (open_to, secrets) =
          disclose_bound-row actions.0 actions.1 (apply_disclosure_to_row-bound h) e in
        let (same, passed) = disclose_secrets-row actions.0 ne secrets e in
        ap (get key) same ∙ redact_row-in p engine row key m

    -- If the policy for secrets is to omit or to fail, then a row that is returned is the stored row,
    -- and no pattern has a match in it.
    pub apply_disclosure_to_row_unchanged :
        {r : Disclosed} {out : Fields}
        → actions.0 ≢ SecretAction.allow
        → actions.0 ≢ SecretAction.redact
        → apply_disclosure_to_row p engine c row report operation ≡ ok r
        → r.row ≡ some out
        → (out ≡ row) × ((redact_row p engine row).hits ≡ [])
    apply_disclosure_to_row_unchanged ne nr h e =
        let (open_to, secrets) =
          disclose_bound-row actions.0 actions.1 (apply_disclosure_to_row-bound h) e in
        let (same, passed) = disclose_secrets-row actions.0 ne secrets e in
        elim passed [
          | inl redact ↦ absurd (nr redact)
          | inr clean ↦ (same ∙ redact_row-clean p engine row clean, clean)
        ]

    -- A row that is returned to a bound caller is not classified as private, or the caller's policy
    -- allows private rows.
    pub apply_disclosure_to_row_private :
        {r : Disclosed} {out : Fields}
        → apply_disclosure_to_row p engine c row report operation ≡ ok r
        → r.row ≡ some out
        → (is_private ≡ false) ⊎ (actions.1 ≡ ClassificationAction.allow)
    apply_disclosure_to_row_private h e =
        (disclose_bound-row actions.0 actions.1 (apply_disclosure_to_row-bound h) e).0
