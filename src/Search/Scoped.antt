-- ===== src/Search/Scoped.antt =====
-- `search` of src/hotmem/runtime.py: a search of src/hotmem/search.py under the caller's policy.
use mathlib.Core.Path.{subst}
use hot_mem.Prelude.{
  ℕ, ◌≡◌, refl, sym, inl, inr, Bool, true, false, ◌&&◌, ◌||◌, Option, none, some, List, [], ◌∷◌,
  if◌then◌else◌, keep, length, ltb, All, Bool-cases, Result, ok, err, ◌>>=◌, ◌>>◌, >>-eq-ok,
  >>=-eq-ok, ok-injective,
}
use hot_mem.Json.{Fields, get}
use hot_mem.Policy.Errors.{PolicyError}
use hot_mem.Policy.Platform.{Platform, str_or_empty}
use hot_mem.Policy.Grants.{CallerCredential}
use hot_mem.Policy.Context.{CallerContext, binding, can_access_row, require_operation}
use hot_mem.Policy.Context.Access.{MayAccess}
use hot_mem.Policy.Context.Rows.{InScope, can_access_row_iff}
use hot_mem.Policy.Redaction.{Pattern}
use hot_mem.Policy.Disclosure.{Disclosed, apply_disclosure_to_row}
use hot_mem.Search.Rerank.{Floats}
use hot_mem.Search.Candidates.{
  Engine, VectorIndex, passes, shown, row_id, search_text, fetch_candidates,
}
use hot_mem.Search.Ranking.{Reranker}
use hot_mem.Search.{Options, Message, slice, search_memories}
use hot_mem.Search.Shown.{IsStored, IsDisclosed, search_memories-IsDisclosed}

-- The arguments of the call, with what the server holds.
pub record SearchRequest (Float : Type 0) : Type 0 where
  pub top_k : ℕ
  pub max_chars : Option ℕ
  pub vector_index : Option VectorIndex  -- `none` is also the `NullVectorIndex`
  pub reranker : Option (Reranker Float)

abbrev pub has_value : {A : Type 0} → Option A → Bool
has_value none = false
has_value (some a) = true

-- What a call of the transformation returns, if it does.
abbrev pub visible : Result PolicyError Disclosed → Option Fields
visible (err e) = none
visible (ok d) = d.row

passes_if :
    (b g : Bool) (f : Fields → Bool) (row : Fields)
    → b ≡ true
    → passes (if b || g then some f else none) row ≡ true
    → f row ≡ true
passes_if true g f row e h = h
passes_if false g f row e h = cc

All-imply :
    {A : Type 0} {P Q : A → Type 0} (xs : List A) → ((x : A) → P x → Q x) → All P xs → All Q xs
All-imply [] f h = tt
All-imply (x ∷ xs) f (here, rest) = (f x here, All-imply xs f rest)

again_if :
    {A : Type 0} {b : Bool} {run : Result PolicyError A} (found : A) {out : A}
    → b ≡ true
    → (if b then run else ok found) ≡ ok out
    → run ≡ ok out
again_if {b = true} found e h = h
again_if {b = false} found e h = cc

once_if :
    {A : Type 0} {b : Bool} (run : Result PolicyError A) {found out : A}
    → b ≡ false
    → (if b then run else ok found) ≡ ok out
    → out ≡ found
once_if {b = true} run e h = cc
once_if {b = false} run e h = ok-injective h

shown_if :
    (b : Bool) (f : Fields → Option Fields) (row : Fields) {out : Fields}
    → b ≡ true
    → shown (if b then some f else none) row ≡ some out
    → f row ≡ some out
shown_if true f row e h = h
shown_if false f row e h = cc

module _ {Float : Type 0} (fl : Floats Float) (e : Engine Float) (p : Platform)
    (patterns : List Pattern) (c : CallerContext) where
  -- The lambda `row_filter`.
  abbrev pub read_filter : Option (Fields → Bool)
  read_filter =
      if c.policy_enforced || has_value c.namespace
      then some (λ row. can_access_row p c row "read")
      else none

  abbrev pub disclosure : Fields → Result PolicyError Disclosed
  disclosure row = apply_disclosure_to_row p patterns c row none "read"

  -- The lambda `run_transform`; the report that it fills changes no row.
  abbrev pub read_transform : Option (Fields → Option Fields)
  read_transform = if c.policy_enforced then some (λ row. visible (disclosure row)) else none

  abbrev pub options_of : SearchRequest Float → Option VectorIndex → Options Float
  options_of q index = record {
    top_k = q.top_k;
    max_chars = q.max_chars;
    vector_index = index;
    reranker = q.reranker;
    row_filter = read_filter;
    row_transform = read_transform;
  }

  -- The first exception of the transformation, in the order of the candidates.
  unfoldable pub first_error : List Fields → Result PolicyError (Unit {0})
  first_error [] = ok tt
  first_error (row ∷ rows) = disclosure row >>= λ d. first_error rows

  abbrev pub candidates_of : SearchRequest Float → Option VectorIndex → List Fields
  candidates_of q index =
      fetch_candidates fl e index read_filter (keep (passes read_filter) e.fts_search) q.top_k

  -- `_run_search`
  unfoldable pub run_search :
      SearchRequest Float → Option VectorIndex → Result PolicyError (List (Message Float))
  run_search q index = do
    if c.policy_enforced then first_error (candidates_of q index) else ok tt
    ok (search_memories fl e (options_of q index))

  -- Disclosure may have used up the window of the index.
  abbrev pub starved : SearchRequest Float → List (Message Float) → Bool
  starved q messages =
      c.policy_enforced && ltb (length messages) q.top_k && has_value q.vector_index

  -- `search`, without the report and the counts of the answer
  unfoldable pub search : SearchRequest Float → Result PolicyError (List (Message Float))
  search q = do
    require_operation c "read"
    messages ← run_search q q.vector_index
    if starved q messages then run_search q none else ok messages

  -- A message is of a stored row that the credential may read in the request's namespace, and shows what
  -- the disclosure returns of that row.
  pub record IsReadable (cred : CallerCredential) (m : Message Float) : Type 0 where
    pub row : Fields
    pub out : Fields
    pub stored : IsStored e row
    pub scope : InScope c.namespace (str_or_empty p (get "namespace" row))
    pub access : MayAccess p c.caller_id "read" row cred
    pub disclosed : visible (disclosure row) ≡ some out
    pub id : m.memory_id ≡ row_id out
    pub cut : ℕ
    pub content : m.content ≡ slice cut (search_text out)

  module _ (cred : CallerCredential) (bound : binding c ≡ some cred) where
    enforced : c.policy_enforced ≡ true
    enforced = enforced_if c.policy_enforced bound
      where
        enforced_if : (b : Bool) → (if b then c.credential else none) ≡ some cred → b ≡ true
        enforced_if true h = refl
        enforced_if false h = cc

    IsDisclosed-IsReadable :
        (q : SearchRequest Float) (index : Option VectorIndex) (m : Message Float)
        → IsDisclosed fl e (options_of q index) m
        → IsReadable cred m
    IsDisclosed-IsReadable q index m h =
        let filtered = passes_if c.policy_enforced _ _ h.origin.row enforced h.origin.passing in
        let seen = shown_if c.policy_enforced _ h.origin.row enforced h.origin.as_shown in
        let (scope, access) = (can_access_row_iff p c cred "read" h.origin.row bound).0 filtered in
        record {
          row = h.origin.row;
          out = h.new;
          stored = h.origin.stored;
          scope = scope;
          access = access;
          disclosed = seen;
          id = h.id;
          cut = h.cut;
          content = h.content;
        }

    run_search-IsReadable :
        (q : SearchRequest Float) (index : Option VectorIndex) (messages : List (Message Float))
        → run_search q index ≡ ok messages
        → All (IsReadable cred) messages
    unfolding run_search
    run_search-IsReadable q index messages h =
        let (_, returned) =
          >>-eq-ok (if c.policy_enforced then first_error (candidates_of q index) else ok tt) _ h in
        rw (ok-injective returned) (
          All-imply _ (λ m. IsDisclosed-IsReadable q index m)
            (search_memories-IsDisclosed fl e (options_of q index)))

    -- Every message that a search returns to a caller under a credential is of a row that a read of the
    -- store returns, that lies in the request's namespace and that the credential may read; its id is
    -- that of the row that the disclosure lets through, and its content is the beginning of that row's
    -- text, whatever the vector index and the reranker
    -- return, and also when the search is run again without the index.
    pub search-IsReadable :
        (q : SearchRequest Float) (messages : List (Message Float))
        → search q ≡ ok messages
        → All (IsReadable cred) messages
    unfolding search
    search-IsReadable q messages h =
        let (_, h1) = >>-eq-ok (require_operation c "read") _ h in
        let (found, ran, h2) = >>=-eq-ok (run_search q q.vector_index) _ h1 in
        elim (Bool-cases (starved q found)) [
          | inl again ↦ run_search-IsReadable q none messages (again_if found again h2)
          | inr enough ↦
              subst (All (IsReadable cred)) (sym (once_if (run_search q none) enough h2))
                (run_search-IsReadable q q.vector_index found ran)
        ]
