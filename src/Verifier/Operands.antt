-- ===== src/Verifier/Operands.antt =====
-- What an accepted instruction may rely on: its operands fit the function, as the table of operand
-- modes says (src/runtime/bytecode_verifier.cpp, src/compiler/opcode.hpp).
use lua.Prelude.{ℕ, ◌<◌, ◌≡◌, ◌≢◌, Bool, true, false, List, length, arith}
use lua.Prelude.Result.{ok}
use lua.Opcode.Metadata
use lua.Opcode.Metadata.{
  OpCode, OpMode, OpArgMask, i_abc, i_abx, i_asbx, op_arg_n, op_arg_u, op_arg_r, op_arg_k,
  get_op_mode, get_b_mode, get_c_mode, test_a_mode, to_u8,
}
use lua.Opcode.Instruction.{Instruction, getarg_a, getarg_b, getarg_c, getarg_bx, isk, indexk}
use lua.Proto.{Info, Children}
use lua.Verifier.Checks.{verify_register, verify_range, verify_rk}
use lua.Verifier.Instructions.{verify_case}

-- A register, or a constant, that the function has.
abbrev pub RkFits : Info → ℕ → Type 0
RkFits p x = (isk x ≡ true → indexk x < length p.constants) × (isk x ≡ false → x < p.max_stack_size)

-- What an operand mode of a three-operand word asks of the operand `x`.
abbrev pub OperandFits : Info → OpArgMask → ℕ → Type 0
OperandFits p op_arg_n x = Unit
OperandFits p op_arg_u x = Unit
OperandFits p op_arg_r x = x < p.max_stack_size
OperandFits p op_arg_k x = RkFits p x

-- The operands of `i` by the format of its operation code. The source's table gives TEST a register
-- as B, which neither the verifier nor the machine reads; VARARG may stand just behind the frame.
pub record OperandsFit (p : Info) (o : OpCode) (i : Instruction) : Type 0 where
  pub a_fits : test_a_mode o ≡ true → o ≢ Metadata.vararg → getarg_a i < p.max_stack_size
  pub b_fits : get_op_mode o ≡ i_abc → o ≢ Metadata.test → OperandFits p (get_b_mode o) (getarg_b i)
  pub c_fits : get_op_mode o ≡ i_abc → OperandFits p (get_c_mode o) (getarg_c i)
  pub bx_fits : get_op_mode o ≡ i_abx → get_b_mode o ≡ op_arg_k → getarg_bx i < length p.constants

module _ (p : Info) (words : List Bool) (pc : ℕ) (i : Instruction) (cs : Children) where
  pub verify_case-OperandsFit :
      (o : OpCode) → verify_case p words pc i cs o ≡ ok tt → OperandsFit p o i
  unfolding verify_case test_a_mode get_op_mode get_b_mode get_c_mode to_u8 verify_register
      verify_range verify_rk
  verify_case-OperandsFit Metadata.move e = ground arith
  verify_case-OperandsFit o e = ground arith
