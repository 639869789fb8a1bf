-- ===== src/Opcode/Instruction.antt =====
-- The layout of an instruction and the functions that pack and unpack it (src/compiler/opcode.hpp).
-- An `Instruction` is a `u32`: a native number below 2 ^ 32. Shifts to the left drop what leaves
-- the word. Operands are `i32` values that are not negative, except `sBx`, an integer.
use Prim.Native.Nat.{bit_and, bit_or}
use lua.Prelude.{ℕ, ◌+◌, ◌-◌, ◌*◌, ◌/◌, ◌%◌, ◌^◌, Bool, not, ◌==◌}
use lua.Prelude.Int.{ℤ, pos, pos_part, neg_part, sub_ℕ, ◌+ℤ◌}
use lua.Opcode.Metadata.{OpCode, to_u8, from_u8}

abbrev pub Instruction : Type 0
Instruction = ℕ

abbrev pub size_c : ℕ
size_c = 9

abbrev pub size_b : ℕ
size_b = 9

abbrev pub size_bx : ℕ
size_bx = size_c + size_b

abbrev pub size_a : ℕ
size_a = 8

abbrev pub size_op : ℕ
size_op = 6

abbrev pub pos_op : ℕ
pos_op = 0

abbrev pub pos_a : ℕ
pos_a = pos_op + size_op

abbrev pub pos_c : ℕ
pos_c = pos_a + size_a

abbrev pub pos_b : ℕ
pos_b = pos_c + size_c

abbrev pub pos_bx : ℕ
pos_bx = pos_c

abbrev pub maxarg_bx : ℕ
maxarg_bx = 2 ^ size_bx - 1

abbrev pub maxarg_sbx : ℕ
maxarg_sbx = maxarg_bx / 2

abbrev pub maxarg_a : ℕ
maxarg_a = 2 ^ size_a - 1

abbrev pub maxarg_b : ℕ
maxarg_b = 2 ^ size_b - 1

abbrev pub maxarg_c : ℕ
maxarg_c = 2 ^ size_c - 1

abbrev pub bitrk : ℕ
bitrk = 2 ^ (size_b - 1)

abbrev pub maxindexrk : ℕ
maxindexrk = bitrk - 1

abbrev pub no_reg : ℕ
no_reg = maxarg_a

-- `x << k` and `~x` on `u32`
abbrev pub shl : ℕ → ℕ → ℕ
shl x k = x * 2 ^ k % 2 ^ 32

abbrev pub not_u32 : ℕ → ℕ
not_u32 x = 2 ^ 32 - 1 - x

-- The bits of a signed number as a `u32`.
abbrev pub to_u32 : ℤ → ℕ
to_u32 n = (pos_part n + (2 ^ 32 - neg_part n % 2 ^ 32)) % 2 ^ 32

abbrev pub mask1 : ℕ → ℕ → Instruction
mask1 n p = shl (not_u32 (shl (not_u32 0) n)) p

unfoldable pub get_opcode : Instruction → OpCode
get_opcode i = from_u8 (bit_and (i / 2 ^ pos_op) (mask1 size_op 0))

unfoldable pub getarg_a : Instruction → ℕ
getarg_a i = bit_and (i / 2 ^ pos_a) (mask1 size_a 0)

unfoldable pub getarg_b : Instruction → ℕ
getarg_b i = bit_and (i / 2 ^ pos_b) (mask1 size_b 0)

unfoldable pub getarg_c : Instruction → ℕ
getarg_c i = bit_and (i / 2 ^ pos_c) (mask1 size_c 0)

unfoldable pub getarg_bx : Instruction → ℕ
getarg_bx i = bit_and (i / 2 ^ pos_bx) (mask1 size_bx 0)

unfoldable pub getarg_sbx : Instruction → ℤ
unfolding getarg_bx
getarg_sbx i = sub_ℕ (getarg_bx i) maxarg_sbx

unfoldable pub create_abc : OpCode → ℕ → ℕ → ℕ → Instruction
create_abc o a b c =
    bit_or (bit_or (bit_or (shl (to_u8 o) pos_op) (shl a pos_a)) (shl b pos_b)) (shl c pos_c)

unfoldable pub create_abx : OpCode → ℕ → ℕ → Instruction
create_abx o a bx = bit_or (bit_or (shl (to_u8 o) pos_op) (shl a pos_a)) (shl bx pos_bx)

unfoldable pub create_asbx : OpCode → ℕ → ℤ → Instruction
unfolding create_abx ◌+ℤ◌
create_asbx o a sbx = create_abx o a (to_u32 (sbx +ℤ pos maxarg_sbx))

unfoldable pub setarg_a : Instruction → ℕ → Instruction
setarg_a i a =
    bit_or (bit_and i (not_u32 (mask1 size_a pos_a))) (bit_and (shl a pos_a) (mask1 size_a pos_a))

unfoldable pub setarg_b : Instruction → ℕ → Instruction
setarg_b i b =
    bit_or (bit_and i (not_u32 (mask1 size_b pos_b))) (bit_and (shl b pos_b) (mask1 size_b pos_b))

unfoldable pub setarg_c : Instruction → ℕ → Instruction
setarg_c i c =
    bit_or (bit_and i (not_u32 (mask1 size_c pos_c))) (bit_and (shl c pos_c) (mask1 size_c pos_c))

unfoldable pub setarg_sbx : Instruction → ℤ → Instruction
unfolding ◌+ℤ◌
setarg_sbx i sbx =
    bit_or (bit_and i (not_u32 (mask1 size_bx pos_bx)))
      (bit_and (shl (to_u32 (sbx +ℤ pos maxarg_sbx)) pos_bx) (mask1 size_bx pos_bx))

-- An operand `x` of nine bits: a constant if its highest bit is set.
unfoldable pub isk : ℕ → Bool
isk x = not (bit_and x bitrk == 0)

unfoldable pub indexk : ℕ → ℕ
indexk r = bit_and r (not_u32 bitrk)

unfoldable pub rkask : ℕ → ℕ
rkask x = bit_or x bitrk
