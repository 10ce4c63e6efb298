-- ===== src/Log/Stream/Pages.antt =====
-- The pages of `replay` together are one query: src/hotmem/events.py and src/hotmem/db.py.
use hot_mem.Prelude.{
  ℕ, zero, suc, ◌-◌, ◌≤◌, ◌<◌, String, ◌≡◌, refl, ap, ◌∙◌, Bool, Option, none, some, List, [], ◌∷◌,
  ◌++◌, if◌then◌else◌, keep, is_empty, length, ltb, inl, inr, Bool-cases, arith, ◌=ₛ◌,
}
use hot_mem.Log.Tables.{LogRow}
use hot_mem.Log.Stream.{
  clause, matches, take, last_seq_of, page_query, is_allowed, query_events, stream_pages,
}

-- The numbers rise, from above `n`.
abbrev pub Ascending : ℕ → List LogRow → Type 0
Ascending n [] = Unit {0}
Ascending n (e ∷ es) = (n < e.seq) × Ascending e.seq es

abbrev drop : ℕ → List LogRow → List LogRow
drop zero xs = xs
drop (suc n) [] = []
drop (suc n) (x ∷ xs) = drop n xs

abbrev is_after : ℕ → LogRow → Bool
is_after n e = ltb n e.seq

Ascending-mono : (m n : ℕ) (es : List LogRow) → m ≤ n → Ascending n es → Ascending m es
Ascending-mono m n [] h a = tt
Ascending-mono m n (e ∷ es) h (above, rest) = (omega arith, rest)

pub Ascending-keep :
    (p : LogRow → Bool) (n : ℕ) (es : List LogRow) → Ascending n es → Ascending n (keep p es)
Ascending-keep p n [] a = tt
Ascending-keep p n (e ∷ es) (above, rest) = elim (Bool-cases (p e)) [
  | inl kept ↦ rw kept (above, Ascending-keep p e.seq es rest)
  | inr dropped ↦ rw dropped (Ascending-keep p n es (Ascending-mono n e.seq es (omega arith) rest))
]

abbrev scoped : Option String → LogRow → Bool
scoped ns e = clause ns (λ n. e.namespace =ₛ n)

-- The clauses of the loop's query, one after the other.
found : Option String → ℕ → List LogRow → List LogRow
found ns a es = keep (is_after a) (keep (scoped ns) es)

keep-matches :
    (ns : Option String) (a : ℕ) (es : List LogRow)
    → keep (matches (page_query ns a)) es ≡ found ns a es
unfolding matches found
keep-matches ns a [] = refl
keep-matches none a (e ∷ es) = ground (arith, keep-matches none a es)
keep-matches (some s) a (e ∷ es) = ground (arith, keep-matches (some s) a es)

-- What is found lies behind the position.
Ascending-after : (a n : ℕ) (es : List LogRow) → Ascending n es → Ascending a (keep (is_after a) es)
Ascending-after a n [] h = tt
Ascending-after a n (e ∷ es) (above, rest) =
    ground (arith, Ascending-keep (is_after a) e.seq es rest, Ascending-after a e.seq es rest)

last_seq_of-le : (n k : ℕ) (es : List LogRow) → Ascending n es → n ≤ last_seq_of n (take k es)
last_seq_of-le n zero es h = omega arith
last_seq_of-le n (suc k) [] h = omega arith
last_seq_of-le n (suc k) (e ∷ es) (above, rest) = omega (arith, last_seq_of-le e.seq k es rest)

keep-after_all : (n : ℕ) (es : List LogRow) → Ascending n es → keep (is_after n) es ≡ es
keep-after_all n [] h = refl
keep-after_all n (e ∷ es) (above, rest) =
    ground (arith, keep-after_all n es (Ascending-mono n e.seq es (omega arith) rest))

-- Behind the last event of a page lies what the page left.
keep-after_page :
    (n k : ℕ) (es : List LogRow)
    → Ascending n es
    → keep (is_after (last_seq_of n (take k es))) es ≡ drop k es
keep-after_page n zero es h = keep-after_all n es h
keep-after_page n (suc k) [] h = refl
keep-after_page n (suc k) (e ∷ es) (above, rest) =
    ground (arith, last_seq_of-le e.seq k es rest, keep-after_page e.seq k es rest)

keep-after_later :
    (a b : ℕ) (es : List LogRow)
    → a ≤ b
    → keep (is_after b) es ≡ keep (is_after b) (keep (is_after a) es)
keep-after_later a b [] h = refl
keep-after_later a b (e ∷ es) h = ground (arith, keep-after_later a b es h)

take-all : (k : ℕ) (es : List LogRow) → length (take k es) < k → take k es ≡ es
take-all zero es h = absurd (omega arith)
take-all (suc k) [] h = refl
take-all (suc k) (e ∷ es) h = ap (λ xs. e ∷ xs) (take-all k es (omega arith))

length-drop : (k : ℕ) (es : List LogRow) → length (drop k es) ≤ length es - k
length-drop zero es = omega arith
length-drop (suc k) [] = omega arith
length-drop (suc k) (e ∷ es) = omega (arith, length-drop k es)

keep-take-drop :
    (p : LogRow → Bool) (k : ℕ) (es : List LogRow)
    → keep p (take k es) ++ keep p (drop k es) ≡ keep p es
keep-take-drop p zero es = refl
keep-take-drop p (suc k) [] = refl
keep-take-drop p (suc k) (e ∷ es) = ground (arith, keep-take-drop p k es)

-- One round: the page, and the rest where the page is full.
page_then_rest :
    (p : LogRow → Bool) (k : ℕ) (es : List LogRow) (rest : Option (List LogRow))
    → (0 < length es → rest ≡ some (keep p (drop (suc k) es)))
    → (let page = take (suc k) es in
        if is_empty page
        then some []
        else if ltb (length page) (suc k)
        then some (keep p page)
        else elim rest [ none ↦ none | some more ↦ some (keep p page ++ more) ])
      ≡ some (keep p es)
page_then_rest p k [] rest h = refl
page_then_rest p k (e ∷ es) rest h = elim (Bool-cases (ltb (length (take k es)) k)) [
  | inl short ↦ rw (h (omega arith)) (ground (arith, take-all k es))
  | inr full ↦ rw (h (omega arith)) (ground (arith, keep-take-drop p k es))
]

abbrev next_position : ℕ → Option String → ℕ → List LogRow → ℕ
next_position k ns a es = last_seq_of a (take (suc k) (keep (matches (page_query ns a)) es))

keep-matches_next :
    (k : ℕ) (ns : Option String) (a : ℕ) (es : List LogRow)
    → Ascending 0 es
    → keep (matches (page_query ns (next_position k ns a es))) es
      ≡ drop (suc k) (keep (matches (page_query ns a)) es)
unfolding found
keep-matches_next k ns a es h =
    let kept = keep (scoped ns) es in
    let within = Ascending-after a 0 kept (Ascending-keep (scoped ns) 0 es h) in
    let far = last_seq_of-le a (suc k) (keep (is_after a) kept) within in
    keep-matches ns (next_position k ns a es) es
    ∙ rw (keep-matches ns a es)
        (keep-after_later a _ kept far ∙ keep-after_page a (suc k) (keep (is_after a) kept) within)

pub stream_pages_lem :
    (rounds k : ℕ) (ns : Option String) (types : Option (List String)) (a : ℕ) (es : List LogRow)
    → Ascending 0 es
    → length (keep (matches (page_query ns a)) es) < rounds
    → stream_pages rounds (suc k) ns types a es
      ≡ some (keep (is_allowed types) (keep (matches (page_query ns a)) es))
unfolding stream_pages query_events
stream_pages_lem zero k ns types a es h bound = absurd (omega arith)
stream_pages_lem (suc rounds) k ns types a es h bound =
    page_then_rest (is_allowed types) k (keep (matches (page_query ns a)) es)
      (stream_pages rounds (suc k) ns types (next_position k ns a es) es)
      λ some_left.
        let next = keep-matches_next k ns a es h in
        let fewer = length-drop (suc k) (keep (matches (page_query ns a)) es) in
        stream_pages_lem rounds k ns types (next_position k ns a es) es h
          (rw next (omega (arith, fewer)))
        ∙ rw next refl
