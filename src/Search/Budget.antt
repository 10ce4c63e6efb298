-- ===== src/Search/Budget.antt =====
-- The limits of a search of src/hotmem/search.py.
use mathlib.Core.Path.{subst}
use hot_mem.Prelude.{
  ℕ, zero, suc, ◌+◌, ◌-◌, ◌≤◌, String, ◌≡◌, sym, inl, inr, Option, none, some, List, [], ◌∷◌,
  length, ◌==◌, Bool-cases, arith,
}
use hot_mem.Prelude.Strings.{str_len}
use hot_mem.Search.Rerank.{Floats, take_first}
use hot_mem.Search.Candidates.{Engine}
use hot_mem.Search.{Options, Message, slice, message, build, ranked, search_memories}
use hot_mem.Search.Ranking.{Scored, second_stage}

str_len-slice : (n : ℕ) (s : String) → str_len (slice n s) ≤ n
unfolding str_len
str_len-slice zero s = omega arith
str_len-slice (suc n) String.[] = omega arith
str_len-slice (suc n) (String.◌∷◌ c s) = omega (arith, str_len-slice n s)

length-take_first : {A : Type 0} (n : ℕ) (xs : List A) → length (take_first n xs) ≤ n
length-take_first zero xs = omega arith
length-take_first (suc n) [] = omega arith
length-take_first (suc n) (x ∷ xs) = omega (arith, length-take_first n xs)

module _ {Float : Type 0} (fl : Floats Float) (e : Engine Float) where
  -- The characters of all messages together.
  abbrev pub total : List (Message Float) → ℕ
  total [] = 0
  total (m ∷ ms) = str_len m.content + total ms

  length-build :
      (budget : Option ℕ) (ss : List (Scored Float)) → length (build fl e budget ss) ≤ length ss
  unfolding build
  length-build budget [] = omega arith
  length-build none (s ∷ ss) = omega (arith, length-build none ss)
  length-build (some n) (s ∷ ss) = elim (Bool-cases (n == 0)) [
    | inl spent ↦ rw spent (omega arith)
    | inr left ↦
        rw left (omega (arith, length-build (some (n - str_len (slice n s.search_text))) ss))
  ]

  total-build : (n : ℕ) (ss : List (Scored Float)) → total (build fl e (some n) ss) ≤ n
  unfolding build message
  total-build n [] = omega arith
  total-build n (s ∷ ss) = elim (Bool-cases (n == 0)) [
    | inl spent ↦ rw spent (omega arith)
    | inr left ↦ rw left (
        omega (
          arith,
          str_len-slice n s.search_text,
          total-build (n - str_len (slice n s.search_text)) ss,
        ))
  ]

  -- A search with a limit on characters returns at most as many messages as were asked for, and
  -- their contents have together at most the limit's number of characters.
  pub search_memories-bounds :
      (o : Options Float) (limit : ℕ)
      → o.max_chars ≡ some limit
      → (length (search_memories fl e o) ≤ o.top_k) × (total (search_memories fl e o) ≤ limit)
  unfolding search_memories
  search_memories-bounds o limit limited =
      let top = take_first o.top_k (second_stage fl e o.reranker (ranked fl e o) o.top_k) in
      let few = length-take_first o.top_k (second_stage fl e o.reranker (ranked fl e o) o.top_k) in
      subst (λ b. (length (build fl e b top) ≤ o.top_k) × (total (build fl e b top) ≤ limit))
        (sym limited) (omega (arith, few, length-build (some limit) top), total-build limit top)
