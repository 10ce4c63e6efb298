-- ===== src/Search/Rerank.antt =====
-- src/hotmem/rerank.py: the second stage of a search.
pub mod Select
pub mod Ids
pub mod Contract
use hot_mem.Prelude.{
  ℕ, ◌≡◌, zero, suc, ◌-◌, String, Bool, true, false, ◌&&◌, ◌||◌, not, Option, none, some, List, [],
  ◌∷◌, ◌++◌, map, if◌then◌else◌, keep, any, contains, is_empty, length, ltb, ◌==◌, ◌=ₛ◌, Result, ok,
  err,
}
use hot_mem.Prelude.Strings.{is_blank}
use hot_mem.Log.Tables.{max, min, str_ltb}

-- Python's floating-point numbers.
pub record Floats (Float : Type 0) : Type 0 where
  pub nought : Float  -- `0.0`
  pub one : Float  -- `1.0`
  pub lt : Float → Float → Bool
  pub eq : Float → Float → Bool
  pub same : Float → Float → Bool  -- `a is b or a == b`
  pub neg : Float → Float
  pub add : Float → Float → Float
  pub sub : Float → Float → Float
  pub mul : Float → Float → Float
  pub div : Float → Float → Float
  pub sqrt : Float → Float

-- What the theorems use of them.
pub record IsFloats {Float : Type 0} (fl : Floats Float) : Type 0 where
  pub same_refl : (a : Float) → fl.same a a ≡ true

pub record SearchCandidate (Float : Type 0) : Type 0 where
  pub memory_id : String
  pub score : Float
  pub content : String

module _ {A : Type 0} where
  -- `xs[:n]`
  abbrev pub take_first : ℕ → List A → List A
  take_first zero xs = []
  take_first (suc n) [] = []
  take_first (suc n) (x ∷ xs) = x ∷ take_first n xs

-- The loop over the ids, with the set `seen`.
unfoldable pub check_ids : List String → List String → List String → Bool
check_ids seen known [] = true
check_ids seen known (id ∷ ids) =
    let rest = check_ids (id ∷ seen) known ids in
    if contains seen id || not (contains known id) then false else rest

-- `ordered`, and the candidates behind the pool where it is too short
abbrev pub filled : ℕ → List String → List String → List String
filled target ordered more =
    if ltb (length ordered) target
    then ordered ++ take_first (target - length ordered) more
    else ordered

module _ {Float : Type 0} where
  abbrev pub ids_of : List (SearchCandidate Float) → List String
  ids_of cs = map (λ c. c.memory_id) cs

  abbrev pub target_of : ℕ → List (SearchCandidate Float) → ℕ
  target_of top_k candidates = min top_k (length candidates)

  -- `validate_rerank_output` of a list of texts
  unfoldable pub validate_rerank_output : List String → List (SearchCandidate Float) → ℕ → Bool
  validate_rerank_output ordered candidates top_k =
      if length ordered == target_of top_k candidates
      then check_ids [] (ids_of candidates) ordered
      else false

  -- `IdentityReranker.rerank`
  unfoldable pub identity_rerank : List (SearchCandidate Float) → ℕ → List String
  identity_rerank candidates top_k = ids_of (take_first top_k candidates)

module _ {Float : Type 0} (fl : Floats Float) where
  abbrev sum : List Float → Float
  sum [] = fl.nought
  sum (x ∷ xs) = fl.add x (sum xs)

  abbrev pub norm : List Float → Float
  norm v = fl.sqrt (sum (map (λ x. fl.mul x x) v))

  abbrev products : List Float → List Float → List Float
  products [] b = []
  products (x ∷ a) [] = []
  products (x ∷ a) (y ∷ b) = fl.mul x y ∷ products a b

  -- `_similarity`
  abbrev pub similarity : List Float → List Float → Float → Float → Float
  similarity a b norm_a norm_b =
      if not (length a == length b)
        || is_empty a
        || fl.eq norm_a fl.nought
        || fl.eq norm_b fl.nought
      then fl.nought
      else fl.div (sum (products a b)) (fl.mul norm_a norm_b)

  -- `min(scores)` and `max(scores)`, of a list that is not empty
  abbrev least : Float → List Float → Float
  least x [] = x
  least x (y ∷ ys) = least (if fl.lt y x then y else x) ys

  abbrev greatest : Float → List Float → Float
  greatest x [] = x
  greatest x (y ∷ ys) = greatest (if fl.lt x y then y else x) ys

  abbrev normalized : Float → Float → Float → Float
  normalized lo hi s = if fl.eq hi lo then fl.one else fl.div (fl.sub s lo) (fl.sub hi lo)

  -- The list `rel`.
  abbrev pub relevance : List (SearchCandidate Float) → List Float
  relevance [] = []
  relevance (c ∷ cs) =
      let scores = map (λ (d : SearchCandidate Float). d.score) cs in
      map (normalized (least c.score scores) (greatest c.score scores)) (c.score ∷ scores)

  -- `rel[i]`; every index that is read is in range
  abbrev at_index : ℕ → List Float → Float
  at_index n [] = fl.nought
  at_index zero (x ∷ xs) = x
  at_index (suc n) (x ∷ xs) = at_index n xs

  -- The dictionary `order`: of equal keys the last one counts.
  abbrev pub order_from : ℕ → List (SearchCandidate Float) → String → ℕ
  order_from n [] id = n
  order_from n (c ∷ cs) id =
      let later = order_from (suc n) cs id in
      if c.memory_id =ₛ id && not (contains (ids_of cs) id) then n else later

  -- The key of a candidate: `(-mmr, order, id)`, compared as a tuple.
  pub record Key : Type 0 where
    pub negated : Float
    pub order : ℕ
    pub id : String

  abbrev pub key_lt : Key → Key → Bool
  key_lt a b =
      if fl.eq a.negated b.negated
      then (if a.order == b.order then str_ltb a.id b.id else ltb a.order b.order)
      else fl.lt a.negated b.negated

  -- What the rounds read and do not change.
  pub record Pool : Type 0 where
    pub rel : List Float
    pub order : String → ℕ
    pub vectors : String → Option (List Float)
    pub lam : Float

  abbrev pub key_of : Pool → (String → Float) → SearchCandidate Float → Key
  key_of p max_sim c = record {
    negated = fl.neg (
        fl.sub (fl.mul p.lam (at_index (p.order c.memory_id) p.rel))
          (fl.mul (fl.sub fl.one p.lam) (max_sim c.memory_id)));
    order = p.order c.memory_id;
    id = c.memory_id;
  }

  -- The loop that finds `best`, from the one found so far.
  abbrev pub best_from :
      Pool
      → (String → Float)
      → SearchCandidate Float
      → List (SearchCandidate Float)
      → SearchCandidate Float
  best_from p max_sim best [] = best
  best_from p max_sim best (c ∷ cs) =
      best_from p max_sim (if key_lt (key_of p max_sim c) (key_of p max_sim best) then c else best)
        cs

  abbrev pub equal_candidate : SearchCandidate Float → SearchCandidate Float → Bool
  equal_candidate a b =
      a.memory_id =ₛ b.memory_id && fl.same a.score b.score && a.content =ₛ b.content

  -- `remaining.remove(best)`
  abbrev pub remove_first :
      SearchCandidate Float → List (SearchCandidate Float) → List (SearchCandidate Float)
  remove_first best [] = []
  remove_first best (c ∷ cs) =
      let rest = remove_first best cs in if equal_candidate c best then cs else c ∷ rest

  abbrev larger_sim : Float → Float → Float
  larger_sim sim old = if fl.lt old sim then sim else old

  -- The cache `max_sim` after `best` has been selected.
  abbrev pub update_sim :
      Pool
      → SearchCandidate Float
      → List (SearchCandidate Float)
      → (String → Float)
      → String
      → Float
  update_sim p best remaining max_sim id = elim (p.vectors best.memory_id) [
    | none ↦ max_sim id
    | some new ↦ elim (p.vectors id) [
      | none ↦ max_sim id
      | some vec ↦
          if contains (ids_of remaining) id
          then larger_sim (similarity vec new (norm vec) (norm new)) (max_sim id)
          else max_sim id
    ]
  ]

  -- The rounds that are left are `target - len(selected)`; the result is `selected` from here on.
  unfoldable pub select_rounds :
      ℕ → Pool → (String → Float) → List (SearchCandidate Float) → List (SearchCandidate Float)
  select_rounds zero p max_sim remaining = []
  select_rounds (suc left) p max_sim [] = []
  select_rounds (suc left) p max_sim (c ∷ cs) =
      let best = best_from p max_sim c cs in
      let rest = remove_first best (c ∷ cs) in
      best ∷ select_rounds left p (update_sim p best rest max_sim) rest

  -- `MMRReranker`, within the ranges that `__post_init__` admits.
  pub record MmrReranker : Type 0 where
    pub lambda_ : Float
    pub pool_limit : ℕ

  -- `fetch_embeddings`: the blobs that the store has, unpacked, where each has a length that is a
  -- multiple of 4; an empty blob is `none`.
  abbrev pub Fetch : Type 0
  Fetch = List String → String → Option (List Float)

  abbrev pub pool_of : MmrReranker → List (SearchCandidate Float) → Option Fetch → Pool
  pool_of r pool fetch = record {
    rel = relevance pool;
    order = order_from 0 pool;
    vectors = elim fetch [ none ↦ λ id. none | some call ↦ call (ids_of pool) ];
    lam = r.lambda_;
  }

  abbrev pub spilled : List (SearchCandidate Float) → List (SearchCandidate Float) → List String
  spilled pool candidates = keep (λ id. not (contains (ids_of pool) id)) (ids_of candidates)

  -- `MMRReranker.rerank`
  unfoldable pub mmr_rerank :
      MmrReranker → List (SearchCandidate Float) → ℕ → Option Fetch → List String
  mmr_rerank r candidates top_k fetch =
      let target = target_of top_k candidates in
      let pool = take_first r.pool_limit candidates in
      filled target (ids_of (select_rounds target (pool_of r pool fetch) (λ id. fl.nought) pool))
        (spilled pool candidates)
