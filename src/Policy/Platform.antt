-- ===== src/Policy/Platform.antt =====
-- What src/hotmem/policy.py calls of Python's library and does not implement.
use hot_mem.Prelude.{String, Option, if◌then◌else◌}
use hot_mem.Json.{Value, str, truthy}

pub record Platform : Type 0 where
  pub show : Value → String  -- `str(v)` of a value that is no text
  pub lower : String → String  -- `s.lower()`
  pub sha256 : String → String  -- `hashlib.sha256(s.encode("utf-8")).hexdigest()`
  pub loads : String → Option Value  -- `json.loads(s)`; `none` is a `JSONDecodeError`
  pub dumps : Value → String  -- `json.dumps(v)`

module _ (p : Platform) where
  abbrev pub to_str : Value → String
  to_str (str s) = s
  to_str v = p.show v

  -- `str(v or "")`
  abbrev pub str_or_empty : Value → String
  str_or_empty v = if truthy v then to_str v else ""
