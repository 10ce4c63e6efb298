-- ===== src/Search/Ranking.antt =====
-- The scores of src/hotmem/search.py, and `_apply_reranker`.
use hot_mem.Prelude.{
  ℕ, String, ◌&&◌, not, Option, none, some, List, [], ◌∷◌, map, if◌then◌else◌, contains, ◌=ₛ◌,
}
use hot_mem.Prelude.Strings.{is_blank}
use hot_mem.Json.{Fields, get, has, truthy}
use hot_mem.Log.Tables.{max}
use hot_mem.Search.Rerank.{Floats, SearchCandidate, take_first, validate_rerank_output}
use hot_mem.Search.Candidates.{Engine, row_id, search_text, prepend}

-- `Reranker`, with the query and the fetch of embeddings in place; `none` is an exception, or a
-- result that is no list of texts.
pub record Reranker (Float : Type 0) : Type 0 where
  pub pool : ℕ
  pub rerank : List (SearchCandidate Float) → ℕ → Option (List String)

pub record Scored (Float : Type 0) : Type 0 where
  pub row : Fields
  pub final_score : Float
  pub search_text : String

module _ {Float : Type 0} (fl : Floats Float) (e : Engine Float) where
  abbrev pub lowest : Float → List Float → Float
  lowest x [] = x
  lowest x (y ∷ ys) = lowest (if fl.lt y x then y else x) ys

  abbrev pub highest : Float → List Float → Float
  highest x [] = x
  highest x (y ∷ ys) = highest (if fl.lt x y then y else x) ys

  abbrev pub bm25 : Fields → Float
  bm25 row = e.to_float (get "bm25_score" row)

  abbrev pub scale : Float → Float → Float → Float
  scale best worst s =
      if fl.eq best worst
      then fl.one
      else fl.sub fl.one (fl.div (fl.sub s best) (fl.sub worst best))

  -- The entry of a dictionary with the rows' ids as keys; the last row of an id counts.
  abbrev pub score_in : (Fields → Float) → List Fields → String → Float
  score_in score [] id = fl.nought
  score_in score (row ∷ rows) id =
      let later = score_in score rows id in
      if row_id row =ₛ id && not (contains (map row_id rows) id) then score row else later

  -- `_normalize_bm25`, read with the default 0
  unfoldable pub normalize_bm25 : List Fields → String → Float
  normalize_bm25 [] id = fl.nought
  normalize_bm25 (row ∷ rows) id =
      let best = lowest (bm25 row) (map bm25 rows) in
      let worst = highest (bm25 row) (map bm25 rows) in
      score_in (λ r. scale best worst (bm25 r)) (row ∷ rows) id

  abbrev pub final_score_of : (String → Float) → Fields → Float
  final_score_of fts_scores row =
      let cosine =
        if truthy (get "cosine_score" row)
        then e.to_float (get "cosine_score" row)
        else fl.nought in
      let importance =
        if has "importance" row then e.to_float (get "importance" row) else e.default_importance in
      fl.add (fl.add (fl.mul e.w_cosine cosine) (fl.mul e.w_fts (fts_scores (row_id row))))
        (fl.mul e.w_importance importance)

  -- The loop over the candidates that have a text to search.
  abbrev pub score_rows : (String → Float) → List Fields → List (Scored Float)
  score_rows fts_scores [] = []
  score_rows fts_scores (row ∷ rows) =
      let rest = score_rows fts_scores rows in
      if is_blank (search_text row)
      then rest
      else record {
        row = row;
        final_score = final_score_of fts_scores row;
        search_text = search_text row;
      }
        ∷ rest

  -- `scored.sort(key=…, reverse=True)`, which keeps the order of equal scores
  abbrev pub insert_scored : Scored Float → List (Scored Float) → List (Scored Float)
  insert_scored s [] = s ∷ []
  insert_scored s (t ∷ ts) =
      let tail = insert_scored s ts in
      if fl.lt s.final_score t.final_score then t ∷ tail else s ∷ t ∷ ts

  abbrev pub sort_scored : List (Scored Float) → List (Scored Float)
  sort_scored [] = []
  sort_scored (s ∷ ss) = insert_scored s (sort_scored ss)

  abbrev pub candidate_of : Scored Float → SearchCandidate Float
  candidate_of s = record {
    memory_id = row_id s.row;
    score = s.final_score;
    content = s.search_text;
  }

  -- `by_id[id]`: of equal keys the last one counts.
  abbrev pub by_id : String → List (Scored Float) → Option (Scored Float)
  by_id id [] = none
  by_id id (s ∷ ss) = elim (by_id id ss) [
    | some later ↦ some later
    | none ↦ if row_id s.row =ₛ id then some s else none
  ]

  -- The rows of the ids; each id of a valid output has one.
  abbrev pub pick : List (Scored Float) → List String → List (Scored Float)
  pick window [] = []
  pick window (id ∷ ids) = prepend (by_id id window) (pick window ids)

  -- What the search makes of a reranker's output.
  abbrev pub reranked :
      Option (List String) → List (Scored Float) → List (Scored Float) → ℕ → List (Scored Float)
  reranked none window scored top_k = scored
  reranked (some ordered) window scored top_k =
      if validate_rerank_output ordered (map candidate_of window) top_k
      then pick window ordered
      else scored

  -- `_apply_reranker`
  unfoldable pub apply_reranker : Reranker Float → List (Scored Float) → ℕ → List (Scored Float)
  apply_reranker r scored top_k =
      let window = take_first (max r.pool top_k) scored in
      reranked (r.rerank (map candidate_of window) top_k) window scored top_k

  abbrev pub second_stage : Option (Reranker Float) → List (Scored Float) → ℕ → List (Scored Float)
  second_stage none scored top_k = scored
  second_stage (some r) scored top_k = apply_reranker r scored top_k
