-- ===== src/Policy/Validation/Bounds.antt =====
-- What the validated request fields satisfy.
use hot_mem.Prelude.{
  suc, ◌≤◌, String, ◌≡◌, refl, Bool, true, false, ok, >>=-eq-ok, List, [], ◌∷◌, arith, length, All,
  ap, raise_if-eq-ok, ok-injective, ltb, not, ◌&&◌,
}
use hot_mem.Prelude.Strings.{strip, strip-strip, str_len, is_blank, has_control, has_control-strip}
use hot_mem.Json.{Value, null, str, arr, Items, nil, cons}
use hot_mem.Policy.Validation.{
  validate_context_field, clean_tag, clean_tags, validate_request_tags, items_len, invalid_tags,
}

-- A text that can stand in a field: stripped, short and free of control characters.
pub record IsClean (s : String) : Type 0 where
  pub stripped : strip s ≡ s
  pub short : str_len s ≤ 256
  pub printable : has_control s ≡ false

empty-IsClean : IsClean ""
unfolding strip str_len has_control
empty-IsClean = record { stripped = refl; short = omega arith; printable = refl }

strip-IsClean :
    (t : String) → has_control t ≡ false → ltb 256 (str_len (strip t)) ≡ false → IsClean (strip t)
strip-IsClean t c l = record {
  stripped = strip-strip t;
  short = ground arith;
  printable = has_control-strip t c;
}

-- The guards that an accepted text passed.
accepted_context :
    (t : String) (allow : Bool) {s : String}
    → validate_context_field (str t) allow ≡ ok s
    → (s ≡ strip t)
      × (has_control t ≡ false)
      × (ltb 256 (str_len (strip t)) ≡ false)
      × ((not allow && is_blank (strip t)) ≡ false)
unfolding validate_context_field
accepted_context t allow h =
    let (printable, h') = raise_if-eq-ok _ _ _ h in
    let (short, h'') = raise_if-eq-ok _ _ _ h' in
    let (present, done) = raise_if-eq-ok _ _ _ h'' in (cc, printable, short, present)

-- An accepted context field is clean, and not empty unless the caller allowed that.
pub validate_context_field-IsClean :
    (v : Value) (allow : Bool) {s : String}
    → validate_context_field v allow ≡ ok s
    → IsClean s × (allow ≡ false → is_blank s ≡ false)
unfolding validate_context_field
validate_context_field-IsClean null true {s} h = let e : s ≡ "" = cc in rw e (empty-IsClean, λ a. a)
validate_context_field-IsClean null false h = cc
validate_context_field-IsClean (str t) allow h =
    let (e, printable, short, present) = accepted_context t allow h in
    rw e (strip-IsClean t printable short, λ a. ground arith)
validate_context_field-IsClean _ allow h = cc

-- A clean text is accepted as it is.
pub validate_context_field-str :
    (s : String) (allow : Bool)
    → IsClean s
    → (allow ≡ false → is_blank s ≡ false)
    → validate_context_field (str s) allow ≡ ok s
unfolding validate_context_field
validate_context_field-str s allow c h = rw c.stripped (ground arith)

-- Every accepted context field is clean, is not empty where the caller forbids that, and is
-- accepted unchanged when it is validated again.
pub validate_context_field-stable :
    (v : Value) (allow : Bool) {s : String}
    → validate_context_field v allow ≡ ok s
    → IsClean s
      × (allow ≡ false → is_blank s ≡ false)
      × (validate_context_field (str s) allow ≡ ok s)
validate_context_field-stable v allow {s} h =
    let (c, present) = validate_context_field-IsClean v allow h in
    (c, present, validate_context_field-str s allow c present)

abbrev pub IsTag : String → Type 0
IsTag s = IsClean s × (is_blank s ≡ false)

clean_tag-IsTag : (v : Value) {s : String} → clean_tag v ≡ ok s → IsTag s
unfolding clean_tag
clean_tag-IsTag (str t) {s} h =
    let (printable, h') = raise_if-eq-ok _ _ _ h in
    let (present, h'') = raise_if-eq-ok _ _ _ h' in
    let (short, done) =
      raise_if-eq-ok (ltb 256 (str_len (strip t))) invalid_tags (ok (strip t)) h'' in
    rw (ok-injective done) (strip-IsClean t printable short, present)
clean_tag-IsTag null h = cc
clean_tag-IsTag _ h = cc

clean_tags-All :
    (items : Items) {tags : List String}
    → clean_tags items ≡ ok tags
    → All IsTag tags × (length tags ≡ items_len items)
unfolding clean_tags
clean_tags-All nil {tags} h = let e : tags ≡ [] = cc in rw e (tt, refl)
clean_tags-All (cons item rest) {tags} h =
    let (s, es, h') = >>=-eq-ok (clean_tag item) _ h in
    let (cleaned, ec, h'') = >>=-eq-ok (clean_tags rest) _ h' in
    let e : tags ≡ s ∷ cleaned = cc in
    let (good, count) = clean_tags-All rest ec in
    rw e ((clean_tag-IsTag item es, good), ap suc count)

abbrev pub strs : List String → Items
strs [] = nil
strs (s ∷ rest) = cons (str s) (strs rest)

clean_tags-strs : (tags : List String) → All IsTag tags → clean_tags (strs tags) ≡ ok tags
unfolding clean_tags clean_tag
clean_tags-strs [] h = refl
clean_tags-strs (s ∷ rest) ((c, present), h) =
    rw (c.printable, c.stripped, present, clean_tags-strs rest h) (ground (arith, c.short))

items_len-strs : (tags : List String) → items_len (strs tags) ≡ length tags
items_len-strs [] = refl
items_len-strs (s ∷ rest) = ap suc (items_len-strs rest)

-- Every accepted list of tags has as many entries as the request, at most 128, each of them clean
-- and not empty, and the list is accepted unchanged when it is validated again.
pub validate_request_tags-stable :
    (items : Items) {tags : List String}
    → validate_request_tags (arr items) ≡ ok tags
    → (length tags ≡ items_len items)
      × (length tags ≤ 128)
      × All IsTag tags
      × (validate_request_tags (arr (strs tags)) ≡ ok tags)
unfolding validate_request_tags
validate_request_tags-stable items {tags} h =
    let (few, h') = raise_if-eq-ok (ltb 128 (items_len items)) invalid_tags (clean_tags items) h in
    let (good, count) = clean_tags-All items h' in
    let again = clean_tags-strs tags good in
    let n = items_len-strs tags in (count, ground arith, good, rw (n, count, few) again)
