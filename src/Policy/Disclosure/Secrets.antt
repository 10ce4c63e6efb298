-- ===== src/Policy/Disclosure/Secrets.antt =====
-- `apply_disclosure_to_row` of src/hotmem/policy.py: the copy of a row with its secrets redacted.
use hot_mem.Prelude.{String, Bool, true, false, List, [], ◌∷◌, ◌++◌, if◌then◌else◌, is_empty}
use hot_mem.Json.{Value, str, obj, Fields, end, field, get, has, put}
use hot_mem.Policy.Platform.{Platform}
use hot_mem.Policy.Redaction.{Pattern, Hit, scan_and_redact_text, redact_value, redact_fields}
use hot_mem.Policy.Disclosure.Classified.{meta_of, provenance_of, tags_value}

-- `out` and `field_hits`; the field's name is never read.
pub record Draft : Type 0 where
  pub out : Fields
  pub hits : List Hit

abbrev pub is_end : Fields → Bool
is_end end = true
is_end (field k v d) = false

-- `if k in out: out[k] = v`
abbrev pub replace : String → Value → Fields → Fields
replace key v out = if has key out then put key v out else out

abbrev pub text_fields : List String
text_fields = "fact_text" ∷ "fact_summary" ∷ "content" ∷ "identifier" ∷ "source_uri" ∷ []

module _ (engine : List Pattern) where
  -- One round of the loop over the text fields, for the value of the field.
  unfoldable pub redact_text_value : String → Value → Draft → Draft
  redact_text_value key (str s) d =
      let (redacted, found) = scan_and_redact_text engine s in
      if is_empty found
      then d
      else record { out = put key (str redacted) d.out; hits = d.hits ++ found }
  redact_text_value key _ d = d

  abbrev pub redact_text_field : String → Draft → Draft
  redact_text_field key d = redact_text_value key (get key d.out) d

  unfoldable pub redact_text_fields : List String → Draft → Draft
  redact_text_fields [] d = d
  redact_text_fields (key ∷ rest) d = redact_text_fields rest (redact_text_field key d)

module _ (p : Platform) (engine : List Pattern) where
  unfoldable pub redact_metadata : Fields → Draft → Draft
  redact_metadata meta d =
      let (redacted, found) = redact_fields engine meta in
      if is_empty found
      then d
      else let out : Fields = elim (get "metadata" d.out) [
        | obj old ↦ put "metadata" (obj redacted) d.out
        | _ ↦ d.out
      ] in
        record {
          out = replace "metadata_json" (str (p.dumps (obj redacted))) out;
          hits = d.hits ++ found;
        }

  unfoldable pub redact_provenance : Draft → Draft
  redact_provenance d =
      let (redacted, found) = redact_value engine (provenance_of p d.out) in
      if is_empty found then d else record {
        out =
            replace "provenance_json" (str (p.dumps redacted))
              (replace "provenance" redacted d.out);
        hits = d.hits ++ found;
      }

  unfoldable pub redact_tags : Draft → Draft
  redact_tags d =
      let (redacted, found) = redact_value engine (tags_value p (get "tags" d.out)) in
      if is_empty found then d else record {
        out =
            put "tags" (elim (get "tags" d.out) [ str s ↦ str (p.dumps redacted) | _ ↦ redacted ])
              d.out;
        hits = d.hits ++ found;
      }

  unfoldable pub redact_row : Fields → Draft
  redact_row row = redact_tags (
      redact_provenance (
        redact_metadata (meta_of p row)
          (redact_text_fields engine text_fields (record { out = row; hits = [] }))))
