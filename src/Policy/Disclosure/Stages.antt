-- ===== src/Policy/Disclosure/Stages.antt =====
-- What the stages of the redaction do to each field, and that they do nothing without a hit.
use mathlib.Core.List.{Memᴰ}
use hot_mem.Prelude.{
  String, ◌≡◌, refl, sym, ap, ◌∙◌, inl, inr, false, List, [], ◌∷◌, ◌++◌, arith, ◌=ₛ◌, contains,
  is_empty, if◌then◌else◌, Bool-cases,
}
use hot_mem.Prelude.Membership.{All-Memᴰ}
use hot_mem.Json.{Value, str, obj, arr, num, bool, null, Fields, get, has, put}
use hot_mem.Json.Lookup.{get-put_ne}
use hot_mem.Policy.Platform.{Platform}
use hot_mem.Policy.Redaction.{Pattern, Hit, scan_and_redact_text, redact_value, redact_fields}
use hot_mem.Policy.Disclosure.Secrets.{
  Draft, replace, redact_text_value, redact_text_field, redact_text_fields, redact_metadata,
  redact_provenance, redact_tags, redact_row, text_fields,
}
use hot_mem.Policy.Disclosure.Classified.{provenance_of, tags_value, meta_of}
use hot_mem.Policy.Disclosure.Redacted.{redacted_text, redact_text_fields-in}

append-eq-nil : {A : Type 0} (xs ys : List A) → (xs ++ ys) ≡ [] → ys ≡ []
append-eq-nil [] ys h = h
append-eq-nil (x ∷ xs) ys h = cc

get-replace_ne :
    (j k : String) (v : Value) (d : Fields) → (j =ₛ k) ≡ false → get k (replace j v d) ≡ get k d
get-replace_ne j k v d h = elim (Bool-cases (has j d)) [
  | inl there ↦ rw there (get-put_ne j k v d h)
  | inr gone ↦ rw gone refl
]

-- A draft that gains hits has hits.
hits-eq-nil :
    (d : Draft) (found : List Hit) (out : Fields)
    → let next : Draft =
        if is_empty found then d else record { out = out; hits = d.hits ++ found } in
      next.hits ≡ [] → next ≡ d
hits-eq-nil d [] out h = refl
hits-eq-nil d (x ∷ found) out h =
    let none_found = append-eq-nil d.hits (x ∷ found) h in cc none_found

module _ (p : Platform) (engine : List Pattern) where
  -- The stages after the text fields leave each other key alone.
  abbrev structured : List String
  structured = "metadata" ∷ "metadata_json" ∷ "provenance" ∷ "provenance_json" ∷ "tags" ∷ []

  redact_metadata-ne :
      (meta : Fields) (k : String) (d : Draft)
      → contains structured k ≡ false
      → get k (redact_metadata p engine meta d).out ≡ get k d.out
  unfolding redact_metadata
  redact_metadata-ne meta k d h = elim (Bool-cases (is_empty (redact_fields engine meta).1)) [
    | inl clean ↦ rw clean refl
    | inr found ↦
        rw found
          (get-replace_ne "metadata_json" k _ _ (ground arith) ∙ by_metadata (get "metadata" d.out))
  ]
    where
      by_metadata :
          (v : Value)
          → let out : Fields = elim v [
            | obj old ↦ put "metadata" (obj (redact_fields engine meta).0) d.out
            | _ ↦ d.out
          ] in
            get k out ≡ get k d.out
      by_metadata (obj old) = get-put_ne "metadata" k _ d.out (ground arith)
      by_metadata (str s) = refl
      by_metadata (arr l) = refl
      by_metadata (num s n m) = refl
      by_metadata (bool b) = refl
      by_metadata null = refl

  redact_provenance-ne :
      (k : String) (d : Draft)
      → contains structured k ≡ false
      → get k (redact_provenance p engine d).out ≡ get k d.out
  unfolding redact_provenance
  redact_provenance-ne k d h =
      elim (Bool-cases (is_empty (redact_value engine (provenance_of p d.out)).1)) [
        | inl clean ↦ rw clean refl
        | inr found ↦ rw found (
            get-replace_ne "provenance_json" k _ _ (ground arith)
            ∙ get-replace_ne "provenance" k _ d.out (ground arith))
      ]

  redact_tags-ne :
      (k : String) (d : Draft)
      → contains structured k ≡ false
      → get k (redact_tags p engine d).out ≡ get k d.out
  unfolding redact_tags
  redact_tags-ne k d h =
      elim (Bool-cases (is_empty (redact_value engine (tags_value p (get "tags" d.out))).1)) [
        | inl clean ↦ rw clean refl
        | inr found ↦ rw found (get-put_ne "tags" k _ d.out (ground arith))
      ]

  pub redact_row-in :
      (row : Fields) (k : String)
      → Memᴰ k text_fields
      → get k (redact_row p engine row).out ≡ redacted_text engine (get k row)
  unfolding redact_row
  redact_row-in row k m =
      redact_tags-ne k _ other
      ∙ redact_provenance-ne k _ other
      ∙ redact_metadata-ne (meta_of p row) k _ other
      ∙ redact_text_fields-in engine text_fields k _ refl m
    where
      other : contains structured k ≡ false
      other =
          All-Memᴰ (λ x. contains structured x ≡ false) text_fields
            (refl, (refl, (refl, (refl, (refl, tt))))) m

  -- Without a hit nothing is changed.
  redact_text_fields-clean :
      (keys : List String) (d : Draft)
      → (redact_text_fields engine keys d).hits ≡ []
      → redact_text_fields engine keys d ≡ d
  unfolding redact_text_fields redact_text_value
  redact_text_fields-clean [] d h = refl
  redact_text_fields-clean (key ∷ rest) d h =
      let later = redact_text_fields-clean rest (redact_text_field engine key d) h in
      let clean = ap (λ (x : Draft). x.hits) (sym later) ∙ h in
      later ∙ by_value (get key d.out) clean
    where
      by_value :
          (v : Value)
          → (redact_text_value engine key v d).hits ≡ []
          → redact_text_value engine key v d ≡ d
      by_value (str s) h = hits-eq-nil d (scan_and_redact_text engine s).1 _ h
      by_value (obj f) h = refl
      by_value (arr l) h = refl
      by_value (num s n m) h = refl
      by_value (bool b) h = refl
      by_value null h = refl

  pub redact_row-clean :
      (row : Fields) → (redact_row p engine row).hits ≡ [] → (redact_row p engine row).out ≡ row
  unfolding redact_row redact_tags redact_provenance redact_metadata
  redact_row-clean row h =
      let start : Draft = record { out = row; hits = [] } in
      let texts = redact_text_fields engine text_fields start in
      let metadata = redact_metadata p engine (meta_of p row) texts in
      let provenance = redact_provenance p engine metadata in
      let no_tags =
        hits-eq-nil provenance (redact_value engine (tags_value p (get "tags" provenance.out))).1 _
          h in
      let h1 = ap (λ (x : Draft). x.hits) (sym no_tags) ∙ h in
      let no_provenance =
        hits-eq-nil metadata (redact_value engine (provenance_of p metadata.out)).1 _ h1 in
      let h2 = ap (λ (x : Draft). x.hits) (sym no_provenance) ∙ h1 in
      let no_metadata = hits-eq-nil texts (redact_fields engine (meta_of p row)).1 _ h2 in
      let h3 = ap (λ (x : Draft). x.hits) (sym no_metadata) ∙ h2 in
      let no_texts = redact_text_fields-clean text_fields start h3 in
      ap (λ (x : Draft). x.out) (no_tags ∙ no_provenance ∙ no_metadata ∙ no_texts)
