-- ===== src/Inspectors/Varint.antt =====
-- The integers of src/hotmem/inspectors/_thrift.py, which reads the footer of a Parquet file, and the
-- writer of tests/_parquet_fixtures.py. Bytes are numbers below 256; the buffer behind the position is
-- a list, and reading past its end raises an `IndexError`.
pub mod Roundtrip
pub mod Extent
mod Tests
use hot_mem.Prelude.{
  ℕ, zero, suc, ◌+◌, ◌-◌, ◌*◌, ◌/◌, ◌%◌, ◌^◌, List, [], ◌∷◌, if◌then◌else◌, ◌==◌, ltb, Result, ok,
  err, ◌>>=◌,
}

-- An integer: `negsuc n` is -n - 1.
pub data ℤ : Type 0 where
  pos negsuc : ℕ → ℤ

pub data ReadError : Type 0 where
  index_error varint_too_long : ReadError

-- `(result >> 1) ^ -(result & 1)`
abbrev pub zigzag_decode : ℕ → ℤ
zigzag_decode r = if r % 2 == 0 then ℤ.pos (r / 2) else ℤ.negsuc (r / 2)

-- The loop of `_read_varint`. The bits of `result` are below `shift`, so `|` is a sum.
unfoldable pub read_groups : ℕ → ℕ → List ℕ → Result ReadError (ℕ × List ℕ)
read_groups shift result [] = err index_error
read_groups shift result (b ∷ rest) =
    let result' = result + b % 128 * 2 ^ shift in
    let more = read_groups (shift + 7) result' rest in
    if ltb b 128
    then ok (result', rest)
    else if ltb 63 (shift + 7)
    then err varint_too_long
    else more

-- `_read_varint`
unfoldable pub read_varint : List ℕ → Result ReadError (ℤ × List ℕ)
read_varint bytes = read_groups 0 0 bytes >>= λ (r, rest). ok (zigzag_decode r, rest)

-- `_read_signed_byte`
unfoldable pub read_signed_byte : List ℕ → Result ReadError (ℤ × List ℕ)
read_signed_byte [] = err index_error
read_signed_byte (b ∷ rest) = ok (if ltb 127 b then ℤ.negsuc (255 - b) else ℤ.pos b, rest)

-- `_zigzag` of the writer, of a number of 64 bits
abbrev pub zigzag : ℤ → ℕ
zigzag (ℤ.pos n) = 2 * n
zigzag (ℤ.negsuc n) = 2 * n + 1

-- The loop of the writer's `_varint`, for a number of at most `k + 1` groups.
unfoldable pub write_groups : ℕ → ℕ → List ℕ
write_groups zero n = n ∷ []
write_groups (suc k) n =
    let rest = write_groups k (n / 128) in
    if n / 128 == 0 then n % 128 ∷ [] else (n % 128 + 128) ∷ rest

-- `_varint`
abbrev pub write_varint : ℤ → List ℕ
write_varint v = write_groups 9 (zigzag v)
