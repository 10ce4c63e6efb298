-- ===== src/Inspectors/Varint/Extent.antt =====
-- How much of the buffer a number takes.
use mathlib.Core.Path.{subst}
use hot_mem.Prelude.{
  ℕ, zero, suc, ◌+◌, ◌*◌, ◌%◌, ◌^◌, ◌<◌, ◌≤◌, ◌≡◌, refl, sym, ap, List, [], ◌∷◌, length, ltb, true,
  false, inl, inr, Bool-cases, Result, ok, >>=-eq-ok, ok-injective, arith,
}
use hot_mem.Inspectors.Varint.{ℤ, ReadError, read_groups, read_varint}

last_length :
    {r result : ℕ} (bytes rest : List ℕ)
    → let out : Result ReadError (ℕ × List ℕ) = ok (result, bytes) in
      out ≡ ok (r, rest)
      → (length rest < suc (length bytes)) × (suc (length bytes) ≤ length rest + 1)
last_length bytes rest h =
    let size = ap (λ (x : ℕ × List ℕ). length x.1) (ok-injective h) in (omega arith, omega arith)

-- The groups from `shift` on, of which `k` are left.
read_groups-length :
    (k shift result r : ℕ) (bytes rest : List ℕ)
    → shift + 7 * suc k ≡ 70
    → read_groups shift result bytes ≡ ok (r, rest)
    → (length rest < length bytes) × (length bytes ≤ length rest + suc k)
unfolding read_groups
read_groups-length k shift result r [] rest left h = cc
read_groups-length zero shift result r (b ∷ bytes) rest left h = elim (Bool-cases (ltb b 128)) [
  | inl last ↦ last_length bytes rest (rw last at h)
  | inr more ↦
      let full : ltb 63 (shift + 7) ≡ true = ground arith in let h' = rw (more, full) at h in cc h'
]
read_groups-length (suc k) shift result r (b ∷ bytes) rest left h = elim (Bool-cases (ltb b 128)) [
  | inl last ↦
      let (some_byte, few) = last_length bytes rest (rw last at h) in (some_byte, omega arith)
  | inr more ↦
      let room : ltb 63 (shift + 7) ≡ false = ground arith in
      let (some_byte, few) =
        read_groups-length k (shift + 7) (result + b % 128 * 2 ^ shift) r bytes rest (omega arith)
          (rw (more, room) at h) in
      (omega arith, omega arith)
]

-- `_read_varint` either raises or reads at least one byte and at most ten, whatever the buffer holds.
pub read_varint-length :
    (v : ℤ) (bytes rest : List ℕ)
    → read_varint bytes ≡ ok (v, rest)
    → (length rest < length bytes) × (length bytes ≤ length rest + 10)
unfolding read_varint
read_varint-length v bytes rest h =
    let ((r, rest'), read, h1) = >>=-eq-ok (read_groups 0 0 bytes) _ h in
    let same : rest ≡ rest' = ap (λ (x : ℤ × List ℕ). x.1) (ok-injective h1) in
    subst (λ l. (length l < length bytes) × (length bytes ≤ length l + 10)) (sym same)
      (read_groups-length 9 0 0 r bytes rest' refl read)
