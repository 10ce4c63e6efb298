-- ===== src/Policy/Validation.antt =====
-- The request fields that src/hotmem/policy.py validates: context fields, envelope version, tags.
pub mod Bounds
use hot_mem.Prelude.{
  ℕ, suc, String, Bool, true, false, ◌&&◌, not, Result, ok, err, ◌>>=◌, ◌>>◌, raise_if, ltb, List,
  [], ◌∷◌, if◌then◌else◌, contains,
}
use hot_mem.Prelude.Strings.{strip, str_len, is_blank, has_control}
use hot_mem.Json.{Value, null, str, arr, Items, nil, cons}
use hot_mem.Policy.Errors.{PolicyError, policy_error}

abbrev pub max_context_field_len : ℕ
max_context_field_len = 256

abbrev pub max_tags_count : ℕ
max_tags_count = 128

abbrev pub max_tag_len : ℕ
max_tag_len = 256

abbrev pub session_envelope_version : String
session_envelope_version = "hotmem-session-v1"

abbrev pub supported_session_envelope_versions : List String
supported_session_envelope_versions = session_envelope_version ∷ []

abbrev invalid_context : PolicyError
invalid_context = policy_error 400 "invalid_session_context"

abbrev invalid_tags : PolicyError
invalid_tags = policy_error 400 "invalid_tags"

-- `name` only stands in the message.
unfoldable pub validate_context_field : Value → Bool → Result PolicyError String
validate_context_field null allow_empty = if allow_empty then ok "" else err invalid_context
validate_context_field (str value) allow_empty = do
  raise_if (has_control value) invalid_context
  let stripped = strip value
  raise_if (ltb max_context_field_len (str_len stripped)) invalid_context
  raise_if (not allow_empty && is_blank stripped) invalid_context
  ok stripped
validate_context_field value allow_empty = err invalid_context

unfoldable pub validate_envelope_version : Value → Result PolicyError String
unfolding validate_context_field
validate_envelope_version null = ok session_envelope_version
validate_envelope_version value = do
  ver ← validate_context_field value false
  raise_if (not (contains supported_session_envelope_versions ver))
      (policy_error 400 "unsupported_envelope_version")
  ok ver

-- One round of the loop over the tags.
pub clean_tag : Value → Result PolicyError String
clean_tag (str item) = do
  raise_if (has_control item) invalid_tags
  let s = strip item
  raise_if (is_blank s) invalid_tags
  raise_if (ltb max_tag_len (str_len s)) invalid_tags
  ok s
clean_tag item = err invalid_tags

pub clean_tags : Items → Result PolicyError (List String)
unfolding clean_tag
clean_tags nil = ok []
clean_tags (cons item rest) = do s ← clean_tag item; cleaned ← clean_tags rest; ok (s ∷ cleaned)

abbrev pub items_len : Items → ℕ
items_len nil = 0
items_len (cons v rest) = suc (items_len rest)

unfoldable pub validate_request_tags : Value → Result PolicyError (List String)
unfolding clean_tags
validate_request_tags null = ok []
validate_request_tags (arr value) = do
  raise_if (ltb max_tags_count (items_len value)) invalid_tags
  clean_tags value
validate_request_tags value = err invalid_tags
