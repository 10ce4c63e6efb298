-- ===== src/Search/Tests/Scoped.antt =====
-- A search under a caller's policy, at concrete inputs.
use hot_mem.Prelude.{
  ℕ, String, ◌≡◌, refl, true, false, none, some, List, [], ◌∷◌, map, All, ok, err, ◌=ₛ◌,
  if◌then◌else◌,
}
use hot_mem.Json.{str, Fields, end, field, get, has, put, truthy}
use hot_mem.Prelude.Strings.{str_len, strip, is_space}
use hot_mem.Policy.Platform.{Platform}
use hot_mem.Policy.Grants.{SecretAction, ClassificationAction, CallerCredential, grants, allows_row}
use hot_mem.Policy.Context.{CallerContext, can_access_row, require_operation}
use hot_mem.Policy.Redaction.{
  Pattern, redact_text, scan_and_redact_text, redact_value, redact_structure, sorted_set,
}
use hot_mem.Policy.Disclosure.{
  record_redaction, record_omission, disclose_hits, disclose_secrets, disclose_bound,
  apply_disclosure_to_row,
}
use hot_mem.Policy.Disclosure.Classified.{
  is_private_classified, effective_disclosure_actions, meta_of, tags_of, provenance_of,
}
use hot_mem.Policy.Disclosure.Secrets.{
  redact_text_value, redact_text_fields, redact_metadata, redact_provenance, redact_tags,
  redact_row,
}
use hot_mem.Search.Candidates.{Engine, fetch_candidates}
use hot_mem.Search.{Message, message, build, disclosed, ranked, search_memories}
use hot_mem.Search.Ranking.{normalize_bm25, apply_reranker}
use hot_mem.Search.Scoped.{
  SearchRequest, first_error, run_search, search, IsReadable, search-IsReadable,
}
use hot_mem.Search.Tests.{floats, engine}

abbrev platform : Platform
platform = record {
  show = λ v. "?";
  lower = λ s. s;
  sha256 = λ s. s;
  loads = λ s. none;
  dumps = λ v. "";
}

abbrev reader : CallerCredential
reader = record {
  token_hash = "token";
  caller_id = "ann";
  store_id = "";
  namespaces = "home" ∷ [];
  operations = "read" ∷ [];
  allowed_sessions = [];
  allowed_sources = [];
  allowed_harnesses = [];
  share_approvals = [];
  is_management = false;
  revoked = false;
  secret_action = some SecretAction.redact;
  private_classification_action = none;
  allow_attachments = false;
  redact_host_paths = true;
}

abbrev context : CallerContext
context = record {
  authenticated = true;
  policy_enforced = true;
  caller_id = "ann";
  store_id = "";
  session_id = "";
  harness_id = "";
  source = "";
  namespace = none;
  credential = some reader;
  idempotency_key = none;
  envelope_version = "hotmem-session-v1";
  policy_default_secret_action = SecretAction.redact;
  policy_default_private_classification_action = ClassificationAction.omit;
}

abbrev row_in : String → String → String → Fields
row_in id ns text =
    field "id" (str id)
      (field "identifier" (str id) (field "namespace" (str ns) (field "fact_text" (str text) end)))

abbrev stored : Engine ℕ
stored = record engine {
  search_with_cosine =
      row_in "a" "home" "key=abcd" ∷ row_in "b" "team" "theirs" ∷ row_in "c" "home" "mine" ∷ [];
}

abbrev patterns : List Pattern
patterns =
    record {
      kind = "api_key";
      count = λ t. if t =ₛ "key=abcd" then 1 else 0;
      sub = λ t. if t =ₛ "key=abcd" then "[REDACTED]" else t;
    }
    ∷ []

abbrev query : SearchRequest ℕ
query = record { top_k = 5; max_chars = none; vector_index = none; reranker = none }

program : Unit {0}
unfolding get has put truthy str_len strip is_space grants allows_row can_access_row
    require_operation redact_text scan_and_redact_text redact_value redact_structure sorted_set
    record_redaction record_omission is_private_classified effective_disclosure_actions meta_of
    tags_of redact_text_value redact_text_fields redact_metadata provenance_of redact_provenance
    redact_tags redact_row disclose_hits disclose_secrets disclose_bound apply_disclosure_to_row
    fetch_candidates normalize_bm25 apply_reranker message build disclosed ranked search_memories
    first_error run_search search
program = tt

abbrev messages : List (Message ℕ)
unfolding program
messages = elim (search floats stored platform patterns context query) as (λ x. List (Message ℕ)) [
  | ok ms ↦ ms
  | err e ↦ []
]

returned : search floats stored platform patterns context query ≡ ok messages
unfolding program
returned = refl

contents : map (λ (m : Message ℕ). m.content) messages ≡ "[REDACTED]" ∷ "mine" ∷ []
unfolding program
contents = refl

search-IsReadable_example : All (IsReadable floats stored platform patterns context reader) messages
search-IsReadable_example =
    search-IsReadable floats stored platform patterns context reader refl query messages returned

-- Without a policy, a request that names the namespace `home` is shown the row of `team` as well.
abbrev local : CallerContext
local = record context { policy_enforced = false; credential = none; namespace = some "home" }

unscoped :
    (elim (search floats stored platform patterns local query) as (λ x. List String) [
      | ok ms ↦ map (λ (m : Message ℕ). m.memory_id) ms
      | err e ↦ []
    ])
    ≡ "a" ∷ "b" ∷ "c" ∷ []
unfolding program
unscoped = refl
