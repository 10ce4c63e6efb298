-- ===== src/Json.antt =====
-- Values of JSON and of Python dictionaries that hold such values.
pub mod Lookup
use hot_mem.Prelude.{
  ℕ, String, Bool, true, false, Option, none, some, ◌==◌, not, ◌=ₛ◌, if◌then◌else◌,
}
use hot_mem.Prelude.Strings.{is_blank}

-- A number is a sign, its digits and the count of those behind the point.
mutual
  pub data Fields : Type 0 where
    end : Fields
    field : String → Value → Fields → Fields

  pub data Items : Type 0 where
    nil : Items
    cons : Value → Items → Items

  pub data Value : Type 0 where
    str : String → Value
    obj : Fields → Value
    arr : Items → Value
    num : Bool → ℕ → ℕ → Value
    bool : Bool → Value
    null : Value

-- `d.get(k)`: a missing key reads as `None`.
unfoldable pub get : String → Fields → Value
get k end = null
get k (field j v d) = if j =ₛ k then v else get k d

-- `k in d`
unfoldable pub has : String → Fields → Bool
has k end = false
has k (field j v d) = if j =ₛ k then true else has k d

-- `d[k] = v`
unfoldable pub put : String → Value → Fields → Fields
put k v end = field k v end
put k v (field j w d) = if j =ₛ k then field j v d else field j w (put k v d)

-- `bool(v)`
unfoldable pub truthy : Value → Bool
truthy null = false
truthy (bool b) = b
truthy (num negative digits scale) = not (digits == 0)
truthy (str s) = not (is_blank s)
truthy (arr nil) = false
truthy (arr (cons v l)) = true
truthy (obj end) = false
truthy (obj (field k v d)) = true

-- `v if isinstance(v, str) else None`
abbrev pub as_str : Value → Option String
as_str (str s) = some s
as_str _ = none
