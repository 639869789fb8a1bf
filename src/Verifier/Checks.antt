-- ===== src/Verifier/Checks.antt =====
-- Failures and the checks of single operands (src/runtime/bytecode_verifier.cpp).
-- The methods return `false` after `fail` has written the text, or with the text untouched: both
-- are errors here. A constructor of `Rejection` is what `error_` holds at the end.
use lua.Prelude.{
  ℕ, ◌+◌, ◌-◌, Bool, true, false, not, ◌&&◌, ◌||◌, String, List, Option, none, some, ltb, leb,
  if◌then◌else◌, length, get_or,
}
use lua.Prelude.Int.{ℤ, pos, pos_part, ◌+ℤ◌, ltb_ℤ}
use lua.Prelude.Result.{Result, ok, err, ◌>>◌, require}
use lua.Opcode.Metadata.{jmp, to_u8, is_opcode}
use lua.Opcode.Instruction.{get_opcode, getarg_sbx, isk, indexk}
use lua.Proto.{ValueType, Info}

-- `reported` has the parts of the message: the function on top of `protoStack_`, the pc and the
-- text. `silent` is a refusal that leaves the message empty. `out_of_fuel` stands for no refusal
-- of the source; `Ends` proves that it does not occur.
pub data Rejection : Type 0 where
  reported : Option String → ℤ → Option ℕ → String → Rejection
  silent : Rejection
  out_of_fuel : Rejection

abbrev pub Check : Type 0
Check = Result Rejection (Unit {0})

abbrev pub fail : Info → Option ℕ → String → Rejection
fail p pc message = reported p.source p.line_defined pc message

-- The source's `usize` is a native number below 2 ^ 64; the sum cannot wrap, as it is within the
-- limit.
unfoldable pub add_within : Info → ℕ → ℕ → ℕ → String → Result Rejection ℕ
add_within p value total limit message =
    if ltb limit value || ltb (limit - value) total
    then err (fail p none message)
    else ok (total + value)

unfoldable pub is_constant_value : ValueType → Bool
is_constant_value ValueType.nil = true
is_constant_value ValueType.boolean = true
is_constant_value ValueType.number = true
is_constant_value ValueType.string = true
is_constant_value _ = false

abbrev pub register_fits : ℤ → ℕ → Bool
register_fits reg max_stack = not (ltb_ℤ reg (pos 0)) && ltb (pos_part reg) max_stack

unfoldable pub verify_register : Info → ℤ → ℕ → ℕ → Check
verify_register p reg max_stack pc =
    require (register_fits reg max_stack) (fail p (some pc) "register out of range")

unfoldable pub verify_range : Info → ℤ → ℤ → ℕ → ℕ → Check
verify_range p first count max_stack pc =
    require (not (ltb_ℤ first (pos 0) || ltb_ℤ count (pos 0)))
      (fail p (some pc) "negative register range")
    >> require (leb (pos_part first + pos_part count) max_stack)
        (fail p (some pc) "register range out of bounds")

unfoldable pub verify_rk : Info → ℕ → ℕ → ℕ → Check
unfolding verify_register
verify_rk p operand max_stack pc =
    if isk operand
    then require (ltb (indexk operand) (length p.constants))
        (fail p (some pc) "RK constant index out of range")
    else verify_register p (pos operand) max_stack pc

-- A word of `dataWords` is true where the source has a value other than 0.
unfoldable pub verify_target : Info → ℤ → List Bool → ℕ → Check
verify_target p target data_words pc =
    require (not (ltb_ℤ target (pos 0) || leb (length data_words) (pos_part target)))
      (fail p (some pc) "control-flow target out of range")
    >> require (not (get_or data_words (pos_part target) false))
        (fail p (some pc) "control-flow target enters pseudo data")

unfoldable pub verify_jump_at : Info → ℕ → List Bool → ℕ → Check
unfolding verify_target to_u8
verify_jump_at p jump_pc data_words owner_pc =
    require
      (not (
        leb (length p.code) jump_pc
        || get_or data_words jump_pc false
        || not (is_opcode (get_opcode (get_or p.code jump_pc 0)) jmp)))
      (fail p (some owner_pc) "test instruction is not followed by JMP")
    >> verify_target p (pos jump_pc +ℤ pos 1 +ℤ getarg_sbx (get_or p.code jump_pc 0)) data_words
        owner_pc
