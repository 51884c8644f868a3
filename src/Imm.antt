-- ===== src/Imm.antt =====
-- The direct encoding of constants of onejit/imm.hpp: a kind and a value in 32 bits, when the value or
-- its complement is a number of 23 bits rotated by whole bytes. 0 stands for no encoding.
pub mod Rotate
pub mod RoundTrip
use onejit.Base.{
  ℕ, zero, suc, ◌+◌, ◌-◌, ◌*◌, ◌/◌, ◌%◌, ◌^◌, bit_and, bit_or, bit_xor, Bool, ◌==◌, ltb, leb, ◌||◌,
  if◌then◌else◌,
}
use onejit.Word.{u32, not64, neg64, shl64, shr}

-- `rrot` and `lrot`: a rotation by 64, which only `recurse` asks for, shifts by 64 in the source;
-- the counts are taken modulo 64, as the machine's shift instructions do.
unfoldable pub rrot : ℕ → ℕ → ℕ
rrot value rotate_bits =
    if rotate_bits == 0
    then value
    else bit_or (shr value (rotate_bits % 64)) (shl64 value ((64 - rotate_bits) % 64))

unfoldable pub lrot : ℕ → ℕ → ℕ
lrot value rotate_bits =
    if rotate_bits == 0
    then value
    else bit_or (shl64 value (rotate_bits % 64)) (shr value ((64 - rotate_bits) % 64))

unfoldable pub can_direct : ℕ → ℕ → ℕ → ℕ → Bool
can_direct ekind bits rotate_bits xor_mask =
    leb ekind 1 || leb (rrot (bit_xor bits xor_mask) rotate_bits) (2 ^ 23 - 1)

unfoldable pub make_direct : ℕ → ℕ → ℕ → ℕ → ℕ
make_direct ekind bits rotate_bits xor_mask =
    let number =
      bit_or (u32 (rotate_bits / 8 * 2 ^ 5))
        (u32 (u32 (rrot (bit_xor bits xor_mask) rotate_bits) * 2 ^ 8)) in
    let payload = bit_or number (u32 (bit_and xor_mask (2 ^ 64 - 2 ^ 31))) in
    bit_or (bit_or 1 (ekind % 16 * 2)) (if leb ekind 1 then 0 else payload)

-- `recurse`: 9 rotations with two masks each
unfoldable pub recurse : ℕ → ℕ → ℕ → ℕ → ℕ → ℕ
recurse zero ekind bits rotate_bits xor_mask = 0
recurse (suc fuel) ekind bits rotate_bits xor_mask =
    let rest =
      recurse fuel ekind bits (if xor_mask == 0 then rotate_bits else rotate_bits + 8)
        (not64 xor_mask) in
    if can_direct ekind bits rotate_bits xor_mask
    then make_direct ekind bits rotate_bits xor_mask
    else if xor_mask == 0
    then rest
    else if ltb rotate_bits 64
    then rest
    else 0

-- `Direct(bits, ekind, 0)`: the kind must fit 4 bits
unfoldable pub direct : ℕ → ℕ → ℕ
direct ekind bits = if ltb 15 ekind then 0 else recurse 18 ekind bits 0 0

-- `Direct::kind`, `xor_mask`, `imm`, `rotation_bits` and `to_const`
unfoldable pub direct_kind : ℕ → ℕ
direct_kind value = value / 2 % 16

unfoldable pub direct_xor_mask : ℕ → ℕ
direct_xor_mask value = neg64 (value / 2 ^ 31)

unfoldable pub direct_imm : ℕ → ℕ
direct_imm value = value / 2 ^ 8 % 2 ^ 23

unfoldable pub rotation_bits : ℕ → ℕ
rotation_bits value = value / 2 ^ 5 % 8 * 8

unfoldable pub to_const_bits : ℕ → ℕ
unfolding direct_xor_mask direct_imm rotation_bits
to_const_bits value =
    bit_xor (direct_xor_mask value) (lrot (direct_imm value) (rotation_bits value))
