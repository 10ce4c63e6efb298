-- ===== src/Policy/Errors.antt =====
-- `PolicyError` of src/hotmem/policy.py, without its message, which is text for people.
use hot_mem.Prelude.{ℕ, String}
use hot_mem.Json.{Fields, end}

pub record PolicyError : Type 0 where
  pub status_code : ℕ
  pub error : String
  pub detail : Fields

abbrev pub policy_error : ℕ → String → PolicyError
policy_error status name = record { status_code = status; error = name; detail = end }
