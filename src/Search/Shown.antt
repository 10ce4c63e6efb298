-- ===== src/Search/Shown.antt =====
-- What a search of src/hotmem/search.py may return: rows that its filter lets through, as its
-- transformation shows them.
use mathlib.Core.List.{Memᴰ}
use mathlib.Core.Path.{subst}
use hot_mem.Prelude.Membership.{Memᴰ-keep}
use hot_mem.Prelude.{
  ℕ, zero, suc, ◌-◌, String, ◌≡◌, refl, sym, ap, ◌∙◌, inl, inr, Bool, true, ◌||◌, Option, none,
  some, List, [], ◌∷◌, ◌++◌, map, keep, is_empty, get_or, length, ltb, leb, ◌==◌, ◌=ₛ◌, All,
  Bool-cases, Option-cases, arith,
}
use hot_mem.Prelude.Strings.{is_blank, str_len}
use hot_mem.Json.{Fields, get}
use hot_mem.Log.Tables.{max}
use hot_mem.Search.Rerank.{Floats, take_first, validate_rerank_output}
use hot_mem.Search.Candidates.{
  Engine, VectorIndex, row_id, search_text, passes, shown, unique_from, transformed, indexed, scan,
  fetch_candidates, prepend,
}
use hot_mem.Search.Ranking.{
  Reranker, Scored, score_rows, insert_scored, sort_scored, candidate_of, by_id, pick, reranked,
  apply_reranker, second_stage, normalize_bm25,
}
use hot_mem.Search.{
  Options, Message, slice, message, build, allowed_rows, disclosed, ranked, search_memories,
}

pub Memᴰ-All : {A : Type 0} {P : A → Type 0} (xs : List A) → ((x : A) → Memᴰ x xs → P x) → All P xs
Memᴰ-All [] h = tt
Memᴰ-All (x ∷ xs) h = (h x (Memᴰ.head refl), Memᴰ-All xs (λ y m. h y (Memᴰ.tail m)))

All-take_first :
    {A : Type 0} (P : A → Type 0) (n : ℕ) (xs : List A) → All P xs → All P (take_first n xs)
All-take_first P zero xs h = tt
All-take_first P (suc n) [] h = tt
All-take_first P (suc n) (x ∷ xs) (here, rest) = (here, All-take_first P n xs rest)

All-prepend :
    {A : Type 0} (P : A → Type 0) (o : Option A) (rest : List A)
    → ((x : A) → o ≡ some x → P x)
    → All P rest
    → All P (prepend o rest)
All-prepend P none rest each h = h
All-prepend P (some x) rest each h = (each x refl, h)

slice_all : (s : String) → slice (str_len s) s ≡ s
unfolding str_len
slice_all String.[] = refl
slice_all (String.◌∷◌ c s) = ap (String.◌∷◌ c) (slice_all s)

-- The row is one that a read of the store returns.
pub data IsStored {Float : Type 0} (e : Engine Float) (row : Fields) : Type 0 where
  scanned : Memᴰ row e.search_with_cosine → IsStored e row
  looked_up : (ids : List String) → Memᴰ row (e.search_by_ids ids) → IsStored e row

module _ {Float : Type 0} (fl : Floats Float) (e : Engine Float) where
  abbrev Passed : Option (Fields → Bool) → Fields → Type 0
  Passed f row = IsStored e row × (passes f row ≡ true)

  scan-Passed : (f : Option (Fields → Bool)) → All (Passed f) (scan fl e f)
  scan-Passed f =
      Memᴰ-All _
        (λ row m. let (at, h) = Memᴰ-keep (passes f) e.search_with_cosine m in (scanned at, h))

  indexed-Passed :
      (f : Option (Fields → Bool)) (fts_rows : List Fields) (hits : List String)
      (index : VectorIndex) (top_k : ℕ)
      → All (Passed f) (indexed fl e f fts_rows hits index top_k)
  indexed-Passed none fts_rows hits index top_k = Memᴰ-All _ (λ row m. (looked_up _ m, refl))
  indexed-Passed (some test) fts_rows hits index top_k =
      let found = e.search_by_ids (unique_from [] (hits ++ map row_id fts_rows)) in
      elim (Bool-cases
        (leb top_k (length (keep test found)) || ltb (length hits) index.oversample)) [
          | inl many ↦ rw many (
              Memᴰ-All (keep test found)
                (λ row m. let (at, h) = Memᴰ-keep test found m in (looked_up _ at, h)))
          | inr few ↦ rw few (scan-Passed (some test))
        ]

  fetched-Passed :
      (index : Option VectorIndex) (f : Option (Fields → Bool)) (fts_rows : List Fields) (top_k : ℕ)
      → All (Passed f) (fetch_candidates fl e index f fts_rows top_k)
  unfolding fetch_candidates
  fetched-Passed none f fts_rows top_k = scan-Passed f
  fetched-Passed (some index) f fts_rows top_k =
      elim (Bool-cases
        (index.is_stale || e.has_unindexed_text_rows || is_empty (get_or index.hits []))) [
          | inl exact ↦ rw exact (scan-Passed f)
          | inr fast ↦ rw fast (indexed-Passed f fts_rows (get_or index.hits []) index top_k)
        ]

  -- A stored row that passes, as it is shown.
  pub record IsShown (o : Options Float) (new : Fields) : Type 0 where
    pub row : Fields
    pub stored : IsStored e row
    pub passing : passes o.row_filter row ≡ true
    pub as_shown : shown o.row_transform row ≡ some new

  transformed-IsShown :
      (o : Options Float) (rows : List Fields)
      → All (Passed o.row_filter) rows
      → All (IsShown o) (transformed o.row_transform rows)
  transformed-IsShown o [] h = tt
  transformed-IsShown o (row ∷ rows) (here, rest) =
      All-prepend (IsShown o) (shown o.row_transform row) (transformed o.row_transform rows)
        (λ new seen. record { row = row; stored = here.0; passing = here.1; as_shown = seen })
        (transformed-IsShown o rows rest)

  record Ranked (o : Options Float) (s : Scored Float) : Type 0 where
    origin : IsShown o s.row
    text : s.search_text ≡ search_text s.row

  score_rows-Ranked :
      (o : Options Float) (f : String → Float) (rows : List Fields)
      → All (IsShown o) rows
      → All (Ranked o) (score_rows fl e f rows)
  score_rows-Ranked o f [] h = tt
  score_rows-Ranked o f (row ∷ rows) (here, rest) = elim (Bool-cases (is_blank (search_text row))) [
    | inl blank ↦ rw blank (score_rows-Ranked o f rows rest)
    | inr full ↦ rw full (record { origin = here; text = refl }, score_rows-Ranked o f rows rest)
  ]

  module _ (P : Scored Float → Type 0) where
    All-insert_scored :
        (s : Scored Float) (ss : List (Scored Float))
        → P s
        → All P ss
        → All P (insert_scored fl e s ss)
    All-insert_scored s [] here h = (here, tt)
    All-insert_scored s (t ∷ ts) here (first_one, rest) =
        elim (Bool-cases (fl.lt s.final_score t.final_score)) [
          | inl after ↦ rw after (first_one, All-insert_scored s ts here rest)
          | inr before ↦ rw before (here, (first_one, rest))
        ]

    All-sort_scored : (ss : List (Scored Float)) → All P ss → All P (sort_scored fl e ss)
    All-sort_scored [] h = tt
    All-sort_scored (s ∷ ss) (here, rest) =
        All-insert_scored s (sort_scored fl e ss) here (All-sort_scored ss rest)

    by_id-All :
        (id : String) (ss : List (Scored Float)) (s : Scored Float)
        → All P ss
        → by_id fl e id ss ≡ some s
        → P s
    by_id-All id [] s h found = cc
    by_id-All id (t ∷ ts) s (here, rest) found = elim (Option-cases (by_id fl e id ts)) [
      | inr (later, at) ↦ by_id-All id ts s rest (ground (arith, at, found))
      | inl absent ↦ elim (Bool-cases (row_id t.row =ₛ id)) [
        | inl same ↦ subst P (ground (arith, absent, same, found)) here
        | inr other ↦ absurd (ground (arith, absent, other, found))
      ]
    ]

    All-pick :
        (window : List (Scored Float)) (ids : List String)
        → All P window
        → All P (pick fl e window ids)
    All-pick window [] h = tt
    All-pick window (id ∷ ids) h =
        All-prepend P (by_id fl e id window) (pick fl e window ids)
          (λ s found. by_id-All id window s h found) (All-pick window ids h)

    All-reranked :
        (output : Option (List String)) (window scored : List (Scored Float)) (top_k : ℕ)
        → All P window
        → All P scored
        → All P (reranked fl e output window scored top_k)
    All-reranked none window scored top_k w h = h
    All-reranked (some ordered) window scored top_k w h =
        elim (Bool-cases (validate_rerank_output ordered (map (candidate_of fl e) window) top_k)) [
          | inl valid ↦ rw valid (All-pick window ordered w)
          | inr invalid ↦ rw invalid h
        ]

    All-apply_reranker :
        (r : Reranker Float) (scored : List (Scored Float)) (top_k : ℕ)
        → All P scored
        → All P (apply_reranker fl e r scored top_k)
    unfolding apply_reranker
    All-apply_reranker r scored top_k h =
        All-reranked _ (take_first (max r.pool top_k) scored) scored top_k
          (All-take_first P (max r.pool top_k) scored h) h

    All-second_stage :
        (r : Option (Reranker Float)) (scored : List (Scored Float)) (top_k : ℕ)
        → All P scored
        → All P (second_stage fl e r scored top_k)
    All-second_stage none scored top_k h = h
    All-second_stage (some r) scored top_k h = All-apply_reranker r scored top_k h

  -- A message is of a row as it is shown, and its content is the beginning of that row's text.
  pub record IsDisclosed (o : Options Float) (m : Message Float) : Type 0 where
    pub new : Fields
    pub origin : IsShown o new
    pub id : m.memory_id ≡ row_id new
    pub identifier : m.identifier ≡ get "identifier" new
    pub created_at : m.created_at ≡ get "created_at" new
    pub cut : ℕ
    pub content : m.content ≡ slice cut (search_text new)

  message-IsDisclosed :
      (o : Options Float) (s : Scored Float) (n : ℕ) (content : String)
      → Ranked o s
      → content ≡ slice n s.search_text
      → IsDisclosed o (message fl e s content)
  unfolding message
  message-IsDisclosed o s n content h same = record {
    new = s.row;
    origin = h.origin;
    id = refl;
    identifier = refl;
    created_at = refl;
    cut = n;
    content = same ∙ ap (slice n) h.text;
  }

  build-IsDisclosed :
      (o : Options Float) (ss : List (Scored Float)) (budget : Option ℕ)
      → All (Ranked o) ss
      → All (IsDisclosed o) (build fl e budget ss)
  unfolding build
  build-IsDisclosed o [] budget h = tt
  build-IsDisclosed o (s ∷ ss) none (here, rest) = (
    message-IsDisclosed o s (str_len s.search_text) s.search_text here
        (sym (slice_all s.search_text)),
    build-IsDisclosed o ss none rest,
  )
  build-IsDisclosed o (s ∷ ss) (some n) (here, rest) = elim (Bool-cases (n == 0)) [
    | inl spent ↦ rw spent tt
    | inr left ↦ rw left (
      message-IsDisclosed o s n (slice n s.search_text) here refl,
      build-IsDisclosed o ss (some (n - str_len (slice n s.search_text))) rest,
    )
  ]

  -- Every message of a search is of a row that a read of the store returns and the row filter lets
  -- through, as the row transformation shows it: its id, identifier and time are those of the shown row, and its content
  -- is the beginning of the shown row's text, whatever the vector index and the reranker return.
  pub search_memories-IsDisclosed :
      (o : Options Float) → All (IsDisclosed o) (search_memories fl e o)
  unfolding search_memories ranked disclosed
  search_memories-IsDisclosed o =
      let fts_rows = keep (passes o.row_filter) e.fts_search in
      let fetched = fetched-Passed o.vector_index o.row_filter fts_rows o.top_k in
      let seen =
        transformed-IsShown o (fetch_candidates fl e o.vector_index o.row_filter fts_rows o.top_k)
          fetched in
      let scores =
        normalize_bm25 fl e (allowed_rows fl e o.row_transform (disclosed fl e o) fts_rows) in
      let order =
        All-sort_scored (Ranked o) _ (score_rows-Ranked o scores (disclosed fl e o) seen) in
      build-IsDisclosed o _ o.max_chars (
        All-take_first (Ranked o) o.top_k _
          (All-second_stage (Ranked o) o.reranker (ranked fl e o) o.top_k order))
