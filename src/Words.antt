-- ===== src/Words.antt =====
-- Machine words as native numbers: 64-bit wrap-around, sign extension, and the operations that
-- tagha/tagha.c writes on `uint64_t`, `int64_t` and on vector lanes of `w` bytes.
pub mod Signed
use Prim.Native.Nat.{bit_and, bit_or, bit_xor}
use tagha.Base.{
  ℕ, ◌+◌, ◌-◌, ◌*◌, ◌/◌, ◌%◌, ◌^◌, Option, none, some, Bool, ltb, leb, ◌==◌, if◌then◌else◌,
}

-- uint64_t a + b
unfoldable pub add64 : ℕ → ℕ → ℕ
add64 a b = (a + b) % 2 ^ 64

-- uint64_t a - b, for b up to 2 ^ 64
unfoldable pub sub64 : ℕ → ℕ → ℕ
sub64 a b = (a + 2 ^ 64 - b) % 2 ^ 64

-- A value of `w` bytes with its sign, as a 64-bit pattern.
unfoldable pub sext : ℕ → ℕ → ℕ
sext w v = if ltb v (256 ^ w / 2) then v else v + 2 ^ 64 - 256 ^ w

-- `( int32_t )(instr) >> 16`, added to a `uintptr_t`: the upper half of the word with its sign.
unfoldable pub offset16 : ℕ → ℕ
unfolding sext
offset16 instr = sext 2 (instr / 65536)

-- The lane operations at a width of `w` bytes. `add64` and the like are those at 8 bytes.
unfoldable pub lane_add : ℕ → ℕ → ℕ → ℕ
lane_add w a b = (a + b) % 256 ^ w

unfoldable pub lane_sub : ℕ → ℕ → ℕ → ℕ
lane_sub w a b = (a + 256 ^ w - b) % 256 ^ w

unfoldable pub lane_mul : ℕ → ℕ → ℕ → ℕ
lane_mul w a b = a * b % 256 ^ w

-- Division by zero has no defined result.
unfoldable pub lane_div : ℕ → ℕ → ℕ → Option ℕ
lane_div w a b = if b == 0 then none else some (a / b)

unfoldable pub lane_mod : ℕ → ℕ → ℕ → Option ℕ
lane_mod w a b = if b == 0 then none else some (a % b)

unfoldable pub lane_neg : ℕ → ℕ → ℕ
lane_neg w a = (256 ^ w - a) % 256 ^ w

unfoldable pub lane_not : ℕ → ℕ → ℕ
lane_not w a = 256 ^ w - 1 - a

unfoldable pub lane_and : ℕ → ℕ → ℕ → ℕ
lane_and w a b = bit_and a b

unfoldable pub lane_or : ℕ → ℕ → ℕ → ℕ
lane_or w a b = bit_or a b

unfoldable pub lane_xor : ℕ → ℕ → ℕ → ℕ
lane_xor w a b = bit_xor a b

-- The width in bits of the promoted left operand: a shift by as much or more is not defined.
abbrev pub shift_bits : ℕ → ℕ
shift_bits w = if w == 8 then 64 else 32

unfoldable pub lane_sll : ℕ → ℕ → ℕ → Option ℕ
lane_sll w a k = if leb (shift_bits w) k then none else some (a * 2 ^ k % 256 ^ w)

unfoldable pub lane_srl : ℕ → ℕ → ℕ → Option ℕ
lane_srl w a k = if leb (shift_bits w) k then none else some (a / 2 ^ k)

-- The shift that copies the sign bit.
unfoldable pub lane_sra : ℕ → ℕ → ℕ → Option ℕ
lane_sra w a k =
    if leb (shift_bits w) k
    then none
    else some (if ltb a (256 ^ w / 2) then a / 2 ^ k else 256 ^ w - 1 - (256 ^ w - 1 - a) / 2 ^ k)

-- Signed tests on patterns of `w` bytes: the order after the sign bit is flipped.
abbrev pub flip_sign : ℕ → ℕ → ℕ
flip_sign w a = (a + 256 ^ w / 2) % 256 ^ w

unfoldable pub lane_ilt : ℕ → ℕ → ℕ → Bool
lane_ilt w a b = ltb (flip_sign w a) (flip_sign w b)

unfoldable pub lane_ile : ℕ → ℕ → ℕ → Bool
lane_ile w a b = leb (flip_sign w a) (flip_sign w b)

unfoldable pub lane_ult : ℕ → ℕ → ℕ → Bool
lane_ult w a b = ltb a b

unfoldable pub lane_ule : ℕ → ℕ → ℕ → Bool
lane_ule w a b = leb a b
