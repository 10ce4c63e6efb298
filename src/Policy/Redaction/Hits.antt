-- ===== src/Policy/Redaction/Hits.antt =====
-- What a scan without hits returns.
use hot_mem.Prelude.{
  String, ◌≡◌, refl, ap, List, [], ◌∷◌, ◌++◌, Bool-cases, inl, inr, is_empty, if◌then◌else◌, arith,
}
use hot_mem.Prelude.Strings.{is_blank}
use hot_mem.Json.{Value, str, obj, arr, num, bool, null, Items, nil, cons, Fields, end, field}
use hot_mem.Policy.Redaction.{
  Pattern, Hit, redact_text, bump, tally, scan_and_redact_text, redact_structure, redact_value,
  redact_items, redact_fields,
}

append-eq-nil : {A : Type 0} (xs ys : List A) → (xs ++ ys) ≡ [] → (xs ≡ []) × (ys ≡ [])
append-eq-nil [] ys h = (refl, h)
append-eq-nil (x ∷ xs) ys h = cc

-- Counting adds entries only.
tally-eq-nil : (kinds : List String) (counts : List Hit) → tally kinds counts ≡ [] → counts ≡ []
tally-eq-nil [] counts h = h
tally-eq-nil (kind ∷ rest) [] h = refl
tally-eq-nil (kind ∷ rest) (c ∷ counts) h =
    let bumped = tally-eq-nil rest (bump kind (c ∷ counts)) h in absurd (ground (arith, bumped))

-- A scan with hits counts them.
counted :
    (text redacted : String) (kinds : List String)
    → let scan : String × List Hit =
        if is_empty kinds then (text, []) else (redacted, tally kinds []) in
      scan.1 ≡ [] → scan.0 ≡ text
counted text redacted [] h = refl
counted text redacted (kind ∷ rest) h = let one = tally-eq-nil rest (bump kind []) h in cc one

module _ (engine : List Pattern) where
  pub scan_and_redact_text-clean :
      (text : String)
      → (scan_and_redact_text engine text).1 ≡ []
      → (scan_and_redact_text engine text).0 ≡ text
  unfolding scan_and_redact_text
  scan_and_redact_text-clean text h = elim (Bool-cases (is_blank text)) [
    | inl blank ↦ rw blank refl
    | inr given ↦
        rw given
          (counted text (redact_text engine text).0 (redact_text engine text).1 (rw given at h))
  ]

  mutual
    unfolding redact_value redact_items redact_fields

    pub redact_value-clean :
        (v : Value) → (redact_value engine v).1 ≡ [] → (redact_value engine v).0 ≡ v
    redact_value-clean (str s) h = ap str (scan_and_redact_text-clean s h)
    redact_value-clean (arr l) h = ap arr (redact_items-clean l h)
    redact_value-clean (obj d) h = ap obj (redact_fields-clean d h)
    redact_value-clean (num negative digits scale) h = refl
    redact_value-clean (bool b) h = refl
    redact_value-clean null h = refl

    pub redact_items-clean :
        (l : Items) → (redact_items engine l).1 ≡ [] → (redact_items engine l).0 ≡ l
    redact_items-clean nil h = refl
    redact_items-clean (cons v rest) h =
        let (first, more) =
          append-eq-nil (redact_value engine v).1 (redact_items engine rest).1 h in
        rw (redact_value-clean v first, redact_items-clean rest more) refl

    pub redact_fields-clean :
        (d : Fields) → (redact_fields engine d).1 ≡ [] → (redact_fields engine d).0 ≡ d
    redact_fields-clean end h = refl
    redact_fields-clean (field k v rest) h =
        let (first, more) =
          append-eq-nil (redact_value engine v).1 (redact_fields engine rest).1 h in
        rw (redact_value-clean v first, redact_fields-clean rest more) refl

  -- A JSON value in which the scan finds nothing is returned as it is.
  pub redact_structure-clean :
      (v : Value) → (redact_structure engine v).1 ≡ [] → (redact_structure engine v).0 ≡ v
  unfolding redact_structure
  redact_structure-clean v h = redact_value-clean v h
