-- ===== src/Search/Candidates.antt =====
-- `_fetch_candidates` of src/hotmem/search.py: the rows that a search ranks.
use hot_mem.Prelude.{
  ℕ, String, Bool, true, ◌||◌, Option, none, some, List, [], ◌∷◌, ◌++◌, map, if◌then◌else◌, keep,
  contains, is_empty, get_or, length, ltb, leb,
}
use hot_mem.Prelude.Strings.{is_blank}
use hot_mem.Json.{Value, str, Fields, get}
use hot_mem.Search.Rerank.{Floats}

-- What the search calls of the store, of the embedder for the query, and of Python.
pub record Engine (Float : Type 0) : Type 0 where
  pub fts_search : List Fields  -- the rows that match the query's words
  pub search_with_cosine : List Fields  -- all rows, scored
  pub search_by_ids : List String → List Fields
  pub has_unindexed_text_rows : Bool
  pub to_float : Value → Float
  pub round_4 : Float → Float
  pub w_cosine : Float
  pub w_fts : Float
  pub w_importance : Float
  pub default_importance : Float  -- `0.5`
  pub loads : String → Option Value  -- `json.loads`; `none` is an exception
  pub to_text : Value → String  -- `str(v)`

-- A vector index; `none` is an exception of its search.
pub record VectorIndex : Type 0 where
  pub is_stale : Bool
  pub oversample : ℕ
  pub hits : Option (List String)

abbrev pub text_column : String → Fields → String
text_column k row = elim (get k row) [ str s ↦ s | _ ↦ "" ]

-- `row["id"]`
abbrev pub row_id : Fields → String
row_id row = text_column "id" row

-- `_search_text`
abbrev pub search_text : Fields → String
search_text row =
    if is_blank (text_column "fact_text" row)
    then text_column "fact_summary" row
    else text_column "fact_text" row

abbrev pub passes : Option (Fields → Bool) → Fields → Bool
passes none row = true
passes (some test) row = test row

abbrev pub shown : Option (Fields → Option Fields) → Fields → Option Fields
shown none row = some row
shown (some change) row = change row

-- The ids without repetition, the first one kept.
abbrev pub unique_from : List String → List String → List String
unique_from seen [] = []
unique_from seen (id ∷ ids) =
    let known = unique_from seen ids in
    let new = unique_from (id ∷ seen) ids in if contains seen id then known else id ∷ new

-- A list with an entry that may be left out.
abbrev pub prepend : {A : Type 0} → Option A → List A → List A
prepend none rest = rest
prepend (some x) rest = x ∷ rest

-- The loop over the candidates with `row_transform`.
abbrev pub transformed : Option (Fields → Option Fields) → List Fields → List Fields
transformed change [] = []
transformed change (row ∷ rows) = prepend (shown change row) (transformed change rows)

module _ {Float : Type 0} (fl : Floats Float) (e : Engine Float) where
  -- The exact scan.
  abbrev pub scan : Option (Fields → Bool) → List Fields
  scan row_filter = keep (passes row_filter) e.search_with_cosine

  -- The rows of the hits and of the words' matches.
  abbrev pub indexed :
      Option (Fields → Bool) → List Fields → List String → VectorIndex → ℕ → List Fields
  indexed none fts_rows hits index top_k =
      e.search_by_ids (unique_from [] (hits ++ map row_id fts_rows))
  indexed (some test) fts_rows hits index top_k =
      let filtered = keep test (e.search_by_ids (unique_from [] (hits ++ map row_id fts_rows))) in
      if leb top_k (length filtered) || ltb (length hits) index.oversample
      then filtered
      else scan (some test)

  -- `_fetch_candidates`
  unfoldable pub fetch_candidates :
      Option VectorIndex → Option (Fields → Bool) → List Fields → ℕ → List Fields
  fetch_candidates none row_filter fts_rows top_k = scan row_filter
  fetch_candidates (some index) row_filter fts_rows top_k =
      if index.is_stale || e.has_unindexed_text_rows || is_empty (get_or index.hits [])
      then scan row_filter
      else indexed row_filter fts_rows (get_or index.hits []) index top_k
