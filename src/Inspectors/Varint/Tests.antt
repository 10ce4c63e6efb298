-- ===== src/Inspectors/Varint/Tests.antt =====
-- Runs of the integers, and their theorems at concrete inputs.
use hot_mem.Prelude.{◌≡◌, refl, [], ◌∷◌, ◌++◌, ok, err, arith}
use hot_mem.Inspectors.Varint.{
  pos, negsuc, index_error, read_groups, read_varint, read_signed_byte, write_groups, write_varint,
}
use hot_mem.Inspectors.Varint.Roundtrip.{read_varint-write_varint}

program : Unit {0}
unfolding read_groups read_varint read_signed_byte write_groups
program = tt

writes : write_varint (negsuc 149) ≡ 171 ∷ 2 ∷ []
unfolding program
writes = refl

ends_early : read_varint (171 ∷ []) ≡ err index_error
unfolding program
ends_early = refl

signed : read_signed_byte (255 ∷ []) ≡ ok (negsuc 0, [])
unfolding program
signed = refl

-- The unsigned length 4 of a text is read as 2.
unsigned_length : read_varint (4 ∷ []) ≡ ok (pos 2, [])
unfolding program
unsigned_length = refl

read_varint-write_varint_example :
    read_varint (write_varint (negsuc 149) ++ (7 ∷ [])) ≡ ok (negsuc 149, 7 ∷ [])
read_varint-write_varint_example = read_varint-write_varint (negsuc 149) (7 ∷ []) (omega arith)
