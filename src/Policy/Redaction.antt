-- ===== src/Policy/Redaction.antt =====
-- Redaction of texts and of JSON values: `RedactionEngine` of src/hotmem/handoff/redact.py and its
-- uses in src/hotmem/policy.py.
pub mod Hits
use Prim.Native.Char.{code}
use hot_mem.Prelude.{
  ℕ, zero, suc, ◌+◌, String, Bool, true, false, List, [], ◌∷◌, ◌++◌, if◌then◌else◌, is_empty, ◌=ₛ◌,
  ltb,
}
use hot_mem.Prelude.Strings.{is_blank}
use hot_mem.Json.{Value, str, obj, arr, num, bool, null, Items, nil, cons, Fields, end, field}

-- A compiled pattern: the count of `finditer`, and `sub` with the replacer of its kind.
pub record Pattern : Type 0 where
  pub kind : String
  pub count : String → ℕ
  pub sub : String → String

-- What a scan reports of one kind.
pub record Hit : Type 0 where
  pub kind : String
  pub count : ℕ

abbrev pub repeat : ℕ → String → List String
repeat zero s = []
repeat (suc n) s = s ∷ repeat n s

-- The kinds of the hits, in the order of the patterns.
unfoldable pub redact_text : List Pattern → String → String × List String
redact_text [] text = (text, [])
redact_text (p ∷ rest) text =
    let matches = p.count text in
    let (redacted, hits) = redact_text rest (elim matches [ zero ↦ text | suc n ↦ p.sub text ]) in
    (redacted, repeat matches p.kind ++ hits)

-- `counts[kind] = counts.get(kind, 0) + 1`
abbrev pub bump : String → List Hit → List Hit
bump kind [] = record { kind = kind; count = 1 } ∷ []
bump kind (h ∷ rest) =
    let later = bump kind rest in
    if h.kind =ₛ kind then record { kind = h.kind; count = h.count + 1 } ∷ rest else h ∷ later

abbrev pub tally : List String → List Hit → List Hit
tally [] counts = counts
tally (kind ∷ rest) counts = tally rest (bump kind counts)

unfoldable pub scan_and_redact_text : List Pattern → String → String × List Hit
scan_and_redact_text engine text =
    if is_blank text
    then (text, [])
    else let (redacted, hits) = redact_text engine text in
      if is_empty hits then (text, []) else (redacted, tally hits [])

-- `_redact_metadata_obj`
unfoldable mutual
  pub redact_value : List Pattern → Value → Value × List Hit
  redact_value engine (str s) =
      let (redacted, hits) = scan_and_redact_text engine s in (str redacted, hits)
  redact_value engine (arr l) = let (redacted, hits) = redact_items engine l in (arr redacted, hits)
  redact_value engine (obj d) =
      let (redacted, hits) = redact_fields engine d in (obj redacted, hits)
  redact_value engine (num negative digits scale) = (num negative digits scale, [])
  redact_value engine (bool b) = (bool b, [])
  redact_value engine null = (null, [])

  pub redact_items : List Pattern → Items → Items × List Hit
  redact_items engine nil = (nil, [])
  redact_items engine (cons v rest) =
      let (redacted, hits) = redact_value engine v in
      let (others, more) = redact_items engine rest in (cons redacted others, hits ++ more)

  pub redact_fields : List Pattern → Fields → Fields × List Hit
  redact_fields engine end = (end, [])
  redact_fields engine (field k v rest) =
      let (redacted, hits) = redact_value engine v in
      let (others, more) = redact_fields engine rest in (field k redacted others, hits ++ more)

unfoldable pub redact_structure : List Pattern → Value → Value × List Hit
redact_structure engine v = redact_value engine v

-- The order of texts by code points.
abbrev pub text_ltb : String → String → Bool
text_ltb s String.[] = false
text_ltb String.[] (String.◌∷◌ d t) = true
text_ltb (String.◌∷◌ c s) (String.◌∷◌ d t) =
    let later = text_ltb s t in
    if ltb (code c) (code d) then true else if ltb (code d) (code c) then false else later

abbrev pub insert_sorted : String → List String → List String
insert_sorted x [] = x ∷ []
insert_sorted x (y ∷ ys) =
    let later = insert_sorted x ys in
    if x =ₛ y then y ∷ ys else if text_ltb x y then x ∷ y ∷ ys else y ∷ later

-- `sorted(set(xs))`
unfoldable pub sorted_set : List String → List String
sorted_set [] = []
sorted_set (x ∷ xs) = insert_sorted x (sorted_set xs)
