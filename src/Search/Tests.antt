-- ===== src/Search/Tests.antt =====
-- Runs of a search with whole numbers for scores, and its theorems at concrete inputs.
mod Scoped
use hot_mem.Prelude.{
  ℕ, ◌+◌, ◌-◌, ◌*◌, ◌/◌, ◌≤◌, String, ◌≡◌, refl, true, false, not, none, some, List, [], ◌∷◌, map,
  length, ltb, ◌==◌, ◌=ₛ◌, All, if◌then◌else◌, arith,
}
use hot_mem.Prelude.Strings.{str_len}
use hot_mem.Json.{str, num, Fields, end, field, get, has, put, truthy}
use hot_mem.Search.Rerank.{
  Floats, IsFloats, SearchCandidate, MmrReranker, Fetch, ids_of, check_ids, validate_rerank_output,
  select_rounds, mmr_rerank,
}
use hot_mem.Search.Rerank.Select.{Distinct}
use hot_mem.Search.Rerank.Contract.{mmr_rerank_valid}
use hot_mem.Search.Candidates.{Engine, row_id, fetch_candidates}
use hot_mem.Search.{Options, Message, message, build, disclosed, ranked, search_memories}
use hot_mem.Search.Ranking.{Reranker, normalize_bm25, apply_reranker}
use hot_mem.Search.Shown.{IsDisclosed, search_memories-IsDisclosed}
use hot_mem.Search.Budget.{total, search_memories-bounds}

abbrev floats : Floats ℕ
floats = record {
  nought = 0;
  one = 1;
  lt = ltb;
  eq = λ a b. a == b;
  same = λ a b. a == b;
  neg = λ a. 1000 - a;
  add = λ a b. a + b;
  sub = λ a b. (a + 100) - b;
  mul = λ a b. a * b;
  div = λ a b. a / b;
  sqrt = λ a. a;
}

floats-IsFloats : IsFloats floats
floats-IsFloats = record { same_refl = λ a. ground arith }

abbrev candidate : String → ℕ → SearchCandidate ℕ
candidate id score = record { memory_id = id; score = score; content = id }

abbrev three : List (SearchCandidate ℕ)
three = candidate "a" 9 ∷ candidate "b" 8 ∷ candidate "c" 1 ∷ []

-- The vectors of "a" and "b" are alike, the one of "c" stands across.
abbrev fetch : Fetch floats
fetch ids id = if id =ₛ "c" then some (0 ∷ 1 ∷ []) else some (1 ∷ 0 ∷ [])

abbrev reranker : MmrReranker floats
reranker = record { lambda_ = 0; pool_limit = 10 }

-- The twin of the first candidate is taken last.
diverse : mmr_rerank floats reranker three 3 (some fetch) ≡ "a" ∷ "c" ∷ "b" ∷ []
unfolding mmr_rerank select_rounds
diverse = refl

three-Distinct : Distinct (ids_of three)
three-Distinct = (refl, (refl, (refl, tt)))

mmr_rerank_valid_example :
    validate_rerank_output (mmr_rerank floats reranker three 2 (some fetch)) three 2 ≡ true
mmr_rerank_valid_example =
    mmr_rerank_valid floats floats-IsFloats reranker three 2 (some fetch) three-Distinct

abbrev row : String → String → ℕ → Fields
row id text importance = field "id" (str id) (
    field "identifier" (str id)
      (field "fact_text" (str text) (field "importance" (num false importance 0) end)))

abbrev engine : Engine ℕ
engine = record {
  fts_search = [];
  search_with_cosine = row "a" "alpha" 1 ∷ row "b" "secret" 9 ∷ row "c" "gamma" 5 ∷ [];
  search_by_ids = λ ids. [];
  has_unindexed_text_rows = false;
  to_float = λ v. elim v as (λ x. ℕ) [ num s d p ↦ d | _ ↦ 0 ];
  round_4 = λ a. a;
  w_cosine = 6;
  w_fts = 2;
  w_importance = 2;
  default_importance = 1;
  loads = λ s. none;
  to_text = λ v. "";
}

-- The row "b" is out of scope, and the text of "c" is masked.
abbrev options : Options ℕ
options = record {
  top_k = 2;
  max_chars = some 7;
  vector_index = none;
  reranker = none;
  row_filter = some (λ r. not (row_id r =ₛ "b"));
  row_transform =
      some (λ r. if row_id r =ₛ "c" then some (put "fact_text" (str "[hid]") r) else some r);
}

contents :
    map (λ (m : Message ℕ). m.content) (search_memories floats engine options) ≡ "[hid]" ∷ "al" ∷ []
unfolding search_memories ranked disclosed fetch_candidates normalize_bm25 message build get put has
    truthy str_len
contents = refl

-- A reranker that makes up an id is ignored.
abbrev wild : Reranker ℕ
wild = record { pool = 10; rerank = λ cs k. some ("b" ∷ "z" ∷ []) }

ignored :
    map
      (λ (m : Message ℕ). m.memory_id)
      (search_memories floats engine (record options { reranker = some wild }))
    ≡ "c" ∷ "a" ∷ []
unfolding search_memories ranked disclosed fetch_candidates normalize_bm25 message build get put has
    truthy str_len apply_reranker validate_rerank_output check_ids
ignored = refl

search_memories-IsDisclosed_example :
    All (IsDisclosed floats engine options) (search_memories floats engine options)
search_memories-IsDisclosed_example = search_memories-IsDisclosed floats engine options

search_memories-bounds_example :
    (length (search_memories floats engine options) ≤ 2)
    × (total floats engine (search_memories floats engine options) ≤ 7)
search_memories-bounds_example = search_memories-bounds floats engine options 7 refl
