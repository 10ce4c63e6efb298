-- ===== src/Policy/Disclosure/Redacted.antt =====
-- What the loop over the text fields does to each field.
use mathlib.Core.List.{Memᴰ}
use hot_mem.Prelude.{
  String, ◌≡◌, refl, sym, ap, ◌∙◌, inl, inr, Bool, true, false, ◌&&◌, not, List, [], ◌∷◌, arith,
  ◌=ₛ◌, contains, is_empty, Bool-cases,
}
use hot_mem.Prelude.Strings.{eq-false_of_ne}
use hot_mem.Prelude.Membership.{Memᴰ-cons, Memᴰ→contains}
use hot_mem.Json.{Value, str, obj, arr, num, bool, null, get}
use hot_mem.Json.Lookup.{get-put_self, get-put_ne}
use hot_mem.Policy.Redaction.{Pattern, Hit, scan_and_redact_text}
use hot_mem.Policy.Redaction.Hits.{scan_and_redact_text-clean}
use hot_mem.Policy.Disclosure.Secrets.{
  Draft, redact_text_value, redact_text_field, redact_text_fields,
}

-- A field's value with its secrets replaced, if it is a text.
abbrev pub redacted_text : List Pattern → Value → Value
redacted_text engine (str s) = str (scan_and_redact_text engine s).0
redacted_text engine v = v

pub is_empty-eq-true : (hits : List Hit) → is_empty hits ≡ true → hits ≡ []
is_empty-eq-true [] h = refl
is_empty-eq-true (x ∷ xs) h = cc

module _ (engine : List Pattern) where
  redact_text_value_self :
      (key : String) (v : Value) (d : Draft)
      → get key d.out ≡ v
      → get key (redact_text_value engine key v d).out ≡ redacted_text engine v
  unfolding redact_text_value
  redact_text_value_self key (str s) d e =
      elim (Bool-cases (is_empty (scan_and_redact_text engine s).1)) [
        | inl clean ↦
            rw clean
              (e ∙ ap str (sym (scan_and_redact_text-clean engine s (is_empty-eq-true _ clean))))
        | inr found ↦ rw found (get-put_self key _ d.out)
      ]
  redact_text_value_self key (obj f) d e = e
  redact_text_value_self key (arr l) d e = e
  redact_text_value_self key (num s n k) d e = e
  redact_text_value_self key (bool b) d e = e
  redact_text_value_self key null d e = e

  redact_text_value-ne :
      (j k : String) (v : Value) (d : Draft)
      → (j =ₛ k) ≡ false
      → get k (redact_text_value engine j v d).out ≡ get k d.out
  unfolding redact_text_value
  redact_text_value-ne j k (str s) d h =
      elim (Bool-cases (is_empty (scan_and_redact_text engine s).1)) [
        | inl clean ↦ rw clean refl
        | inr found ↦ rw found (get-put_ne j k _ d.out h)
      ]
  redact_text_value-ne j k (obj f) d h = refl
  redact_text_value-ne j k (arr l) d h = refl
  redact_text_value-ne j k (num s n m) d h = refl
  redact_text_value-ne j k (bool b) d h = refl
  redact_text_value-ne j k null d h = refl

  redact_text_fields-ne :
      (keys : List String) (k : String) (d : Draft)
      → contains keys k ≡ false
      → get k (redact_text_fields engine keys d).out ≡ get k d.out
  unfolding redact_text_fields
  redact_text_fields-ne [] k d h = refl
  redact_text_fields-ne (j ∷ rest) k d h =
      redact_text_fields-ne rest k (redact_text_field engine j d) (ground arith)
      ∙ redact_text_value-ne j k (get j d.out) d (ground arith)

  abbrev distinct : List String → Bool
  distinct [] = true
  distinct (k ∷ rest) = not (contains rest k) && distinct rest

  absent_head :
      (k : String) (rest : List String) → distinct (k ∷ rest) ≡ true → contains rest k ≡ false
  absent_head k rest h = ground arith

  pub redact_text_fields-in :
      (keys : List String) (k : String) (d : Draft)
      → distinct keys ≡ true
      → Memᴰ k keys
      → get k (redact_text_fields engine keys d).out ≡ redacted_text engine (get k d.out)
  unfolding redact_text_fields
  redact_text_fields-in [] k d h m = elim m [ ]
  redact_text_fields-in (j ∷ rest) k d h m = elim (Memᴰ-cons m) [
    | inl here ↦
        let absent : contains rest k ≡ false = ap (contains rest) here ∙ ground arith in
        redact_text_fields-ne rest k (redact_text_field engine j d) absent
        ∙ ap (λ x. get x (redact_text_field engine j d).out) here
        ∙ redact_text_value_self j (get j d.out) d refl
        ∙ ap (λ x. redacted_text engine (get x d.out)) (sym here)
    | inr there ↦
        let present = Memᴰ→contains there in
        let apart =
          eq-false_of_ne j k
            (λ same. cc (ap (contains rest) same, present, absent_head j rest h)) in
        redact_text_fields-in rest k (redact_text_field engine j d) (ground arith) there
        ∙ ap (redacted_text engine) (redact_text_value-ne j k (get j d.out) d apart)
  ]
