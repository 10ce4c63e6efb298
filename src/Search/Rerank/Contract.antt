-- ===== src/Search/Rerank/Contract.antt =====
-- The output of each reranker of src/hotmem/rerank.py meets the contract that the search checks.
use hot_mem.Prelude.{
  ℕ, suc, ◌+◌, ◌-◌, ◌≤◌, String, ◌≡◌, refl, ap, ◌∙◌, inl, inr, true, Option, List, [], ◌∷◌, length,
  ltb, All, Bool-cases, arith,
}
use hot_mem.Log.Tables.{min}
use hot_mem.Search.Rerank.{
  Floats, IsFloats, SearchCandidate, MmrReranker, Fetch, take_first, ids_of, target_of,
  validate_rerank_output, identity_rerank, select_rounds, Pool, pool_of, spilled, filled,
  mmr_rerank,
}
use hot_mem.Search.Rerank.Select.{
  Distinct, All-select_rounds, length-select_rounds, Distinct-select_rounds,
}
use hot_mem.Search.Rerank.Ids.{
  Within, Outside, without, check_ids-true, Outside-nil, Within-refl, ids_of-take_first,
  All-take_first, Distinct-take_first, length-take_first, Outside-without, All-without,
  Distinct-without, length-without_first, Outside-Within, Distinct-append, All-append,
  length-append,
}

length-ids_of :
    {Float : Type 0} (cs : List (SearchCandidate Float)) → length (ids_of cs) ≡ length cs
length-ids_of [] = refl
length-ids_of (c ∷ cs) = ap suc (length-ids_of cs)

valid_output :
    {Float : Type 0} (ordered : List String) (candidates : List (SearchCandidate Float)) (top_k : ℕ)
    → length ordered ≡ target_of top_k candidates
    → Within (ids_of candidates) ordered
    → Distinct ordered
    → validate_rerank_output ordered candidates top_k ≡ true
unfolding validate_rerank_output
valid_output ordered candidates top_k e w d =
    rw (check_ids-true [] (ids_of candidates) ordered w (Outside-nil ordered) d) (ground (arith, e))

-- The identity reranker, given candidates with distinct ids, meets the contract.
pub identity_rerank_valid :
    {Float : Type 0} (candidates : List (SearchCandidate Float)) (top_k : ℕ)
    → Distinct (ids_of candidates)
    → validate_rerank_output (identity_rerank candidates top_k) candidates top_k ≡ true
unfolding identity_rerank
identity_rerank_valid candidates top_k d =
    let same = ids_of-take_first top_k candidates in
    valid_output (ids_of (take_first top_k candidates)) candidates top_k
      (length-ids_of (take_first top_k candidates) ∙ length-take_first top_k candidates)
      (rw same (All-take_first _ top_k (ids_of candidates) (Within-refl (ids_of candidates))))
      (rw same (Distinct-take_first top_k (ids_of candidates) d))

-- What is selected, and what spills.
record Parts (target : ℕ) (ids ordered more : List String) : Type 0 where
  known : Within ids ordered
  distinct : Distinct ordered
  more_known : Within ids more
  more_distinct : Distinct more
  apart : Outside ordered more
  bounded : length ordered ≤ target
  enough : target ≤ length ordered + length more

record Full (target : ℕ) (ids ordered : List String) : Type 0 where
  known : Within ids ordered
  distinct : Distinct ordered
  size : length ordered ≡ target

Outside-take_first :
    (seen : List String) (n : ℕ) (ids : List String)
    → Outside seen ids
    → Outside seen (take_first n ids)
Outside-take_first seen n ids o = All-take_first _ n ids o

filled-Full :
    (target : ℕ) (ids ordered more : List String)
    → Parts target ids ordered more
    → Full target ids (filled target ordered more)
filled-Full target ids ordered more h = elim (Bool-cases (ltb (length ordered) target)) [
  | inl e ↦
      let n = target - length ordered in
      rw e (record {
        known =
            All-append _ ordered (take_first n more) h.known (All-take_first _ n more h.more_known);
        distinct =
            Distinct-append ordered (take_first n more) h.distinct
              (Distinct-take_first n more h.more_distinct)
              (Outside-take_first ordered n more h.apart);
        size =
            length-append ordered (take_first n more)
            ∙ rw (length-take_first n more) (ground (arith, e, h.bounded, h.enough));
      })
  | inr e ↦
      rw e (record { known = h.known; distinct = h.distinct; size = ground (arith, e, h.bounded) })
]

All-ids_of :
    {Float : Type 0} (P : String → Type 0) (cs : List (SearchCandidate Float))
    → All P (ids_of cs)
    → All (λ c. P c.memory_id) cs
All-ids_of P [] h = tt
All-ids_of P (c ∷ cs) (here, rest) = (here, All-ids_of P cs rest)

ids_of-All :
    {Float : Type 0} (P : String → Type 0) (cs : List (SearchCandidate Float))
    → All (λ c. P c.memory_id) cs
    → All P (ids_of cs)
ids_of-All P [] h = tt
ids_of-All P (c ∷ cs) (here, rest) = (here, ids_of-All P cs rest)

covers : (k n limit : ℕ) → min k n ≤ min (min k n) (min limit n) + (n - limit)
covers k n limit = ground arith

min-le : (k n : ℕ) → min k n ≤ k
min-le k n = ground arith

module _ {Float : Type 0} (fl : Floats Float) (law : IsFloats fl) where
  Within-select_rounds :
      (known : List String) (left : ℕ) (p : Pool fl) (m : String → Float)
      (cs : List (SearchCandidate Float))
      → Within known (ids_of cs)
      → Within known (ids_of (select_rounds fl left p m cs))
  Within-select_rounds known left p m cs w =
      ids_of-All _ (select_rounds fl left p m cs)
        (All-select_rounds fl law _ left p m cs (All-ids_of _ cs w))

  mmr_rerank-Parts :
      (r : MmrReranker fl) (candidates : List (SearchCandidate Float)) (top_k : ℕ)
      (fetch : Option (Fetch fl))
      → Distinct (ids_of candidates)
      → let pool = take_first r.pool_limit candidates in
        Parts
          (target_of top_k candidates)
          (ids_of candidates)
          (ids_of (
            select_rounds fl
              (target_of top_k candidates)
              (pool_of fl r pool fetch)
              (λ id. fl.nought)
              pool))
          (spilled fl pool candidates)
  mmr_rerank-Parts r candidates top_k fetch d =
      let ids = ids_of candidates in
      let target = target_of top_k candidates in
      let pool = take_first r.pool_limit candidates in
      let p = pool_of fl r pool fetch in
      let start : String → Float = λ id. fl.nought in
      let chosen = select_rounds fl target p start pool in
      let heads : ids_of pool ≡ take_first r.pool_limit ids =
        ids_of-take_first r.pool_limit candidates in
      let in_pool : Within (ids_of pool) (ids_of chosen) =
        Within-select_rounds (ids_of pool) target p start pool (Within-refl (ids_of pool)) in
      let known : Within ids (ids_of pool) =
        rw heads (All-take_first _ r.pool_limit ids (Within-refl ids)) in
      let size : length (ids_of chosen) ≡ min target (min r.pool_limit (length candidates)) =
        length-ids_of chosen
        ∙ length-select_rounds fl law target p start pool
        ∙ ap (min target) (length-take_first r.pool_limit candidates) in
      let more : length (spilled fl pool candidates) ≡ length candidates - r.pool_limit =
        ap (λ heads. length (without heads ids)) heads
        ∙ length-without_first r.pool_limit ids d
        ∙ ap (λ n. n - r.pool_limit) (length-ids_of candidates) in
      record {
        known = Within-select_rounds ids target p start pool known;
        distinct =
            Distinct-select_rounds fl law target p start pool
              (rw heads (Distinct-take_first r.pool_limit ids d));
        more_known = All-without _ (ids_of pool) ids (Within-refl ids);
        more_distinct = Distinct-without (ids_of pool) ids d;
        apart =
            Outside-Within (ids_of pool) (ids_of chosen) _ in_pool
              (Outside-without (ids_of pool) ids);
        bounded = rw size (min-le target (min r.pool_limit (length candidates)));
        enough = rw (size, more) (covers top_k (length candidates) r.pool_limit);
      }

  -- Given candidates with distinct ids, the MMR reranker meets the contract that the search checks,
  -- whatever the scores, the embeddings, the pool limit and lambda are: its output has no id twice,
  -- only ids of candidates, and as many as were asked for or as there are.
  pub mmr_rerank_valid :
      (r : MmrReranker fl) (candidates : List (SearchCandidate Float)) (top_k : ℕ)
      (fetch : Option (Fetch fl))
      → Distinct (ids_of candidates)
      → validate_rerank_output (mmr_rerank fl r candidates top_k fetch) candidates top_k ≡ true
  unfolding mmr_rerank
  mmr_rerank_valid r candidates top_k fetch d =
      let full =
        filled-Full (target_of top_k candidates) (ids_of candidates) _ _
          (mmr_rerank-Parts r candidates top_k fetch d) in
      valid_output _ candidates top_k full.size full.known full.distinct
