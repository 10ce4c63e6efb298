-- ===== src/Search.antt =====
-- src/hotmem/search.py: hybrid search over a store, for one query.
pub mod Rerank
pub mod Candidates
pub mod Ranking
pub mod Shown
pub mod Budget
pub mod Scoped
mod Tests
use hot_mem.Prelude.{
  ℕ, zero, suc, ◌-◌, String, Bool, true, false, ◌&&◌, ◌||◌, not, Option, none, some, List, [], ◌∷◌,
  ◌++◌, map, if◌then◌else◌, keep, contains, is_empty, get_or, length, ltb, leb, ◌==◌, ◌=ₛ◌,
}
use hot_mem.Prelude.Strings.{is_blank, str_len}
use hot_mem.Json.{Value, str, arr, null, Items, nil, cons, Fields, get, has, truthy}
use hot_mem.Log.Tables.{max}
use hot_mem.Search.Rerank.{Floats, SearchCandidate, take_first, validate_rerank_output}
use hot_mem.Search.Candidates.{
  Engine, VectorIndex, text_column, row_id, search_text, passes, shown, unique_from, prepend,
  transformed, scan, indexed, fetch_candidates,
}
use hot_mem.Search.Ranking.{
  Reranker, Scored, lowest, highest, bm25, scale, score_in, normalize_bm25, final_score_of,
  score_rows, insert_scored, sort_scored, candidate_of, by_id, pick, reranked, apply_reranker,
  second_stage,
}

-- The other arguments; a reranker that is the identity is `none`.
pub record Options (Float : Type 0) : Type 0 where
  pub top_k : ℕ
  pub max_chars : Option ℕ
  pub vector_index : Option VectorIndex
  pub reranker : Option (Reranker Float)
  pub row_filter : Option (Fields → Bool)
  pub row_transform : Option (Fields → Option Fields)

-- Python's slice `s[:n]`
abbrev pub slice : ℕ → String → String
slice zero s = String.[]
slice (suc n) String.[] = String.[]
slice (suc n) (String.◌∷◌ c s) = String.◌∷◌ c (slice n s)

-- A message without its role, which is always `system`.
pub record Message (Float : Type 0) : Type 0 where
  pub content : String
  pub memory_id : String
  pub identifier : Value
  pub score : Float
  pub created_at : Value
  pub provenance : Option Value
  pub tags : Option (List String)

module _ {Float : Type 0} (fl : Floats Float) (e : Engine Float) where
  abbrev pub parsed : Value → Option Value
  parsed raw = if not (truthy raw) then none else elim raw [
    | str s ↦ elim (e.loads s) [ none ↦ none | some null ↦ none | some v ↦ some v ]
    | v ↦ some v
  ]

  abbrev pub texts_of : Items → List String
  texts_of nil = []
  texts_of (cons v items) = e.to_text v ∷ texts_of items

  abbrev pub parsed_tags : Value → List String
  parsed_tags raw = elim (parsed raw) [ some (arr items) ↦ texts_of items | _ ↦ [] ]

  abbrev pub message_tags : List String → Option Value → Option (List String)
  message_tags [] none = none
  message_tags tags provenance = some tags

  -- The message of a row with the text that the budget leaves.
  unfoldable pub message : Scored Float → String → Message Float
  message s content =
      let provenance = parsed (get "provenance_json" s.row) in
      record {
        content = content;
        memory_id = row_id s.row;
        identifier = get "identifier" s.row;
        score = e.round_4 s.final_score;
        created_at = get "created_at" s.row;
        provenance = provenance;
        tags = message_tags (parsed_tags (get "tags" s.row)) provenance;
      }

  -- The loop with `char_budget`.
  unfoldable pub build : Option ℕ → List (Scored Float) → List (Message Float)
  build budget [] = []
  build none (s ∷ ss) = message s s.search_text ∷ build none ss
  build (some n) (s ∷ ss) =
      let content = slice n s.search_text in
      let rest = build (some (n - str_len content)) ss in
      if n == 0 then [] else message s content ∷ rest

  -- `allowed_ids`, where a `row_transform` is given
  abbrev pub allowed_rows :
      Option (Fields → Option Fields) → List Fields → List Fields → List Fields
  allowed_rows none candidates fts_rows = fts_rows
  allowed_rows (some change) candidates fts_rows =
      keep (λ r. contains (map row_id candidates) (row_id r)) fts_rows

  -- The candidates as the caller may see them.
  unfoldable pub disclosed : Options Float → List Fields
  disclosed o = transformed o.row_transform (
      fetch_candidates fl e o.vector_index o.row_filter (keep (passes o.row_filter) e.fts_search)
        o.top_k)

  -- The first-stage ranking.
  unfoldable pub ranked : Options Float → List (Scored Float)
  ranked o =
      let fts_rows =
        allowed_rows o.row_transform (disclosed o) (keep (passes o.row_filter) e.fts_search) in
      sort_scored fl e (score_rows fl e (normalize_bm25 fl e fts_rows) (disclosed o))

  unfoldable pub search_memories : Options Float → List (Message Float)
  search_memories o =
      build o.max_chars (take_first o.top_k (second_stage fl e o.reranker (ranked o) o.top_k))
