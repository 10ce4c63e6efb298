-- ===== src/Inspectors/Varint/Roundtrip.antt =====
-- What is written is read back.
use hot_mem.Prelude.{
  ℕ, zero, suc, ◌+◌, ◌*◌, ◌/◌, ◌%◌, ◌^◌, ◌<◌, ◌≤◌, ◌≡◌, refl, ap, ◌∙◌, List, ◌∷◌, ◌++◌, ◌==◌, ltb,
  true, false, inl, inr, Bool-cases, ok, arith,
}
use native.Mathlib.Nat.{div-add-mod}
use native.Mathlib.Numerals.{towards_suc}
use hot_mem.Inspectors.Varint.{
  ℤ, pos, negsuc, read_groups, read_varint, zigzag, zigzag_decode, write_groups, write_varint,
}

zigzag_decode-zigzag : (v : ℤ) → zigzag_decode (zigzag v) ≡ v
zigzag_decode-zigzag (pos n) = ground arith
zigzag_decode-zigzag (negsuc n) = ground arith

-- The weight of the next group.
group_weight : (s : ℕ) → 2 ^ (s + 7) ≡ 128 * 2 ^ s
group_weight s = simp towards_suc (omega arith)

-- The lowest group and the rest make the number.
groups-sum : (n s r : ℕ) → r + n % 128 * 2 ^ s + n / 128 * 2 ^ (s + 7) ≡ r + n * 2 ^ s
groups-sum n s r = omega (
  arith,
  ap (λ (t : ℕ). t * 2 ^ s) (div-add-mod n 128),
  ap (λ (t : ℕ). n / 128 * t) (group_weight s),
)

last_group :
    (n shift result : ℕ) (rest : List ℕ)
    → n < 128
    → read_groups shift result (n ∷ rest) ≡ ok (result + n * 2 ^ shift, rest)
unfolding read_groups
last_group n shift result rest below =
    let low : n % 128 ≡ n = omega arith in
    let stop : ltb n 128 ≡ true = ground arith in rw (stop, low) refl

inner_group :
    (n shift result : ℕ) (rest : List ℕ)
    → shift + 7 ≤ 63
    → read_groups shift result ((n % 128 + 128) ∷ rest)
      ≡ read_groups (shift + 7) (result + n % 128 * 2 ^ shift) rest
unfolding read_groups
inner_group n shift result rest room =
    let low : (n % 128 + 128) % 128 ≡ n % 128 = omega arith in
    let on : ltb (n % 128 + 128) 128 ≡ false = ground arith in
    let short : ltb 63 (shift + 7) ≡ false = ground arith in rw (on, short, low) refl

-- The groups from `shift` on, of which there are at most `k + 1`.
read_groups-write_groups :
    (k n shift result : ℕ) (rest : List ℕ)
    → n < 128 ^ suc k
    → shift + 7 * k ≤ 63
    → read_groups shift result (write_groups k n ++ rest) ≡ ok (result + n * 2 ^ shift, rest)
unfolding write_groups
read_groups-write_groups zero n shift result rest fits room =
    last_group n shift result rest (omega arith)
read_groups-write_groups (suc k) n shift result rest fits room = elim (Bool-cases (n / 128 == 0)) [
  | inl last ↦
      let below : n < 128 = ground arith in
      let low : n % 128 ≡ n = omega arith in rw (last, low) (last_group n shift result rest below)
  | inr more ↦
      let ih =
        read_groups-write_groups k (n / 128) (shift + 7) (result + n % 128 * 2 ^ shift) rest
          (omega arith) (omega arith) in
      rw more (
        inner_group n shift result (write_groups k (n / 128) ++ rest) (omega arith)
        ∙ ih
        ∙ ap (λ (r : ℕ). ok (r, rest)) (groups-sum n shift result))
]

-- An integer of 64 bits, whose zigzag code is below 2 ^ 64, is read back from the bytes that the writer makes of
-- it, whatever follows them, and what follows is left to read.
pub read_varint-write_varint :
    (v : ℤ) (rest : List ℕ)
    → zigzag v < 2 ^ 64
    → read_varint (write_varint v ++ rest) ≡ ok (v, rest)
unfolding read_varint
read_varint-write_varint v rest fits =
    let raw = read_groups-write_groups 9 (zigzag v) 0 0 rest (omega arith) (omega arith) in
    let same : 0 + zigzag v * 2 ^ 0 ≡ zigzag v = omega arith in
    rw (raw, same) (ap (λ (w : ℤ). ok (w, rest)) (zigzag_decode-zigzag v))
