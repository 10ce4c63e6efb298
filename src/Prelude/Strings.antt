-- ===== src/Prelude/Strings.antt =====
-- The part of Python's `str` that the program uses, over native texts.
use Prim.Native.Char.{Char, code}
use hot_mem.Prelude.{
  ℕ, suc, ◌≤◌, String, ◌≡◌, refl, Bool, true, false, ◌&&◌, ◌||◌, leb, ltb, ◌==◌, if◌then◌else◌,
  arith, Bool-cases, inl, inr, ◌=ₛ◌, ◌≢◌, eq_iff,
}

-- `str.isspace` of one character: the code points that `str.strip` removes.
unfoldable pub is_space : ℕ → Bool
is_space c =
    leb 9 c && leb c 13
    || leb 28 c && leb c 32
    || c == 133
    || c == 160
    || c == 5760
    || leb 8192 c && leb c 8202
    || c == 8232
    || c == 8233
    || c == 8239
    || c == 8287
    || c == 12288

-- `len(s)`: the number of code points.
unfoldable pub str_len : String → ℕ
str_len String.[] = 0
str_len (String.◌∷◌ c s) = suc (str_len s)

abbrev pub is_blank : String → Bool
is_blank String.[] = true
is_blank (String.◌∷◌ c s) = false

lstrip : String → String
lstrip String.[] = String.[]
lstrip (String.◌∷◌ c s) = let rest = lstrip s in if is_space (code c) then rest else String.◌∷◌ c s

rstrip : String → String
rstrip String.[] = String.[]
rstrip (String.◌∷◌ c s) =
    let r = rstrip s in if is_space (code c) && is_blank r then String.[] else String.◌∷◌ c r

-- `s.strip()`
unfoldable pub strip : String → String
unfolding lstrip rstrip
strip s = lstrip (rstrip s)

-- `any(ord(ch) < 32 or ord(ch) == 127 for ch in s)`
unfoldable pub has_control : String → Bool
has_control String.[] = false
has_control (String.◌∷◌ c s) = ltb (code c) 32 || code c == 127 || has_control s

lstrip-lstrip : (s : String) → lstrip (lstrip s) ≡ lstrip s
unfolding lstrip
lstrip-lstrip String.[] = refl
lstrip-lstrip (String.◌∷◌ c s) = elim (Bool-cases (is_space (code c))) [
  | inl space ↦ rw space (lstrip-lstrip s)
  | inr other ↦ rw other (rw other)
]

rstrip-rstrip : (s : String) → rstrip (rstrip s) ≡ rstrip s
unfolding rstrip
rstrip-rstrip String.[] = refl
rstrip-rstrip (String.◌∷◌ c s) = elim (Bool-cases (is_space (code c) && is_blank (rstrip s))) [
  | inl blank ↦ rw blank
  | inr other ↦ rw other (rw (rstrip-rstrip s, other))
]

unpush :
    (b : Bool) (c : Char) (r s : String)
    → (if b && is_blank r then String.[] else String.◌∷◌ c r) ≡ String.◌∷◌ c s
    → r ≡ s
unpush false c r s h = cc
unpush true c String.[] s h = cc
unpush true c (String.◌∷◌ d r) s h = cc

-- A suffix of a text that ends in no white space ends in none.
rstrip-lstrip : (s : String) → rstrip s ≡ s → rstrip (lstrip s) ≡ lstrip s
unfolding rstrip lstrip
rstrip-lstrip String.[] h = refl
rstrip-lstrip (String.◌∷◌ c s) h = elim (Bool-cases (is_space (code c))) [
  | inl space ↦ rw space (rstrip-lstrip s (unpush (is_space (code c)) c (rstrip s) s h))
  | inr other ↦ rw other h
]

-- Stripping twice is stripping once.
pub strip-strip : (s : String) → strip (strip s) ≡ strip s
unfolding strip
strip-strip s = rw (rstrip-lstrip (rstrip s) (rstrip-rstrip s)) (lstrip-lstrip (rstrip s))

lstrip_len : (s : String) → str_len (lstrip s) ≤ str_len s
unfolding lstrip str_len
lstrip_len String.[] = omega arith
lstrip_len (String.◌∷◌ c s) = ground (arith, lstrip_len s)

has_control-lstrip : (s : String) → has_control s ≡ false → has_control (lstrip s) ≡ false
unfolding lstrip has_control
has_control-lstrip String.[] h = refl
has_control-lstrip (String.◌∷◌ c s) h = ground (arith, has_control-lstrip s)

has_control-rstrip : (s : String) → has_control s ≡ false → has_control (rstrip s) ≡ false
unfolding rstrip has_control
has_control-rstrip String.[] h = refl
has_control-rstrip (String.◌∷◌ c s) h = ground (arith, has_control-rstrip s)

pub has_control-strip : (s : String) → has_control s ≡ false → has_control (strip s) ≡ false
unfolding strip
has_control-strip s h = has_control-lstrip (rstrip s) (has_control-rstrip s h)

rstrip_len : (s : String) → str_len (rstrip s) ≤ str_len s
unfolding rstrip str_len
rstrip_len String.[] = omega arith
rstrip_len (String.◌∷◌ c s) = ground (arith, rstrip_len s)

pub strip_len : (s : String) → str_len (strip s) ≤ str_len s
unfolding strip
strip_len s = omega (arith, rstrip_len s, lstrip_len (rstrip s))

pub ne_of_eq-false : (s t : String) → (s =ₛ t) ≡ false → s ≢ t
ne_of_eq-false s t h e = cc (h, (eq_iff s t).1 e)

pub eq-false_of_ne : (s t : String) → s ≢ t → (s =ₛ t) ≡ false
eq-false_of_ne s t h = elim (Bool-cases (s =ₛ t)) [
  | inl e ↦ absurd (h ((eq_iff s t).0 e))
  | inr e ↦ e
]
