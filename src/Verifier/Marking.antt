-- ===== src/Verifier/Marking.antt =====
-- The loop of `verifyProto` that finds the words of the code that are data, not instructions: the
-- extended operand of SETLIST and the pseudo instructions behind CLOSURE
-- (src/runtime/bytecode_verifier.cpp).
use lua.Prelude.{
  ℕ, zero, suc, ◌+◌, ◌-◌, ◌/◌, Bool, true, not, ◌&&◌, ◌||◌, List, none, some, ltb, leb, ◌==◌,
  if◌then◌else◌, length, get_or, set,
}
use lua.Prelude.Int.{pos, i32_max}
use lua.Prelude.Result.{Result, ok, err, ◌>>=◌, ◌>>◌, require}
use lua.Opcode.Metadata.{to_u8, is_valid_opcode, setlist, closure, move, getupval, is_opcode}
use lua.Opcode.Instruction.{Instruction, get_opcode, getarg_b, getarg_c, getarg_bx}
use lua.Proto.{Info, Children, get_sub_proto, info}
use lua.Verifier.Checks.{Rejection, Check, fail, out_of_fuel, verify_register}

abbrev pub lfields_per_flush : ℕ
lfields_per_flush = 50

abbrev pub Words : Type 0
Words = List Bool

-- An instruction whose operand is the next word.
unfoldable pub has_extended_operand : Instruction → Bool
unfolding to_u8
has_extended_operand i = is_opcode (get_opcode i) setlist && (getarg_c i == 0)

-- The branch of SETLIST: the next pc and the marks.
unfoldable pub mark_setlist : Info → ℕ → Words → Result Rejection (ℕ × Words)
mark_setlist p pc words =
    let block = get_or p.code (pc + 1) 0 in
    require (ltb (pc + 1) (length p.code))
      (fail p (some pc) "SETLIST is missing its extended operand")
    >> require
        (not (block == 0 || ltb i32_max block || ltb (i32_max / lfields_per_flush) (block - 1)))
        (fail p (some pc) "SETLIST extended operand overflows")
    >> ok (pc + 2, set words (pc + 1) true)

unfoldable pub verify_pseudo : Info → ℕ → Check
unfolding verify_register to_u8
verify_pseudo p at_pc =
    let pseudo = get_or p.code at_pc 0 in
    if is_opcode (get_opcode pseudo) move
    then verify_register p (pos (getarg_b pseudo)) p.max_stack_size at_pc
    else if is_opcode (get_opcode pseudo) getupval
    then require (ltb (getarg_b pseudo) p.num_upvalues)
        (fail p (some at_pc) "CLOSURE parent upvalue index out of range")
    else err (fail p (some at_pc) "CLOSURE has an invalid upvalue pseudo instruction")

-- for (offset = 1; offset <= upvalues; ++offset), on the rounds left
unfoldable pub mark_pseudos : Info → ℕ → ℕ → Words → Result Rejection Words
unfolding verify_pseudo
mark_pseudos p zero at_pc words = ok words
mark_pseudos p (suc rounds) at_pc words =
    verify_pseudo p at_pc >> mark_pseudos p rounds (at_pc + 1) (set words at_pc true)

unfoldable pub mark_closure : Info → Children → ℕ → Words → Result Rejection (ℕ × Words)
mark_closure p cs pc words = elim (get_sub_proto cs (getarg_bx (get_or p.code pc 0))) [
  | none ↦ err (fail p (some pc) "CLOSURE child Proto index out of range")
  | some sub ↦
      let upvalues = (info sub).num_upvalues in
      require (leb upvalues (length p.code - pc - 1))
        (fail p (some pc) "CLOSURE is missing upvalue pseudo instructions")
      >> (mark_pseudos p upvalues (pc + 1) words >>= λ marked. ok (pc + upvalues + 1, marked))
]

-- One round at `pc`.
unfoldable pub mark_step : Info → Children → ℕ → Words → Result Rejection (ℕ × Words)
unfolding to_u8
mark_step p cs pc words =
    let i = get_or p.code pc 0 in
    require (is_valid_opcode (get_opcode i)) (fail p (some pc) "unknown opcode")
    >> (if has_extended_operand i
        then mark_setlist p pc words
        else if is_opcode (get_opcode i) closure
        then mark_closure p cs pc words
        else ok (pc + 1, words))

-- for (pc = 0; pc < codeCount; ++pc), on fuel
unfoldable pub mark_from : Info → Children → ℕ → ℕ → Words → Result Rejection Words
mark_from p cs zero pc words = if ltb pc (length p.code) then err out_of_fuel else ok words
mark_from p cs (suc fuel) pc words =
    if ltb pc (length p.code)
    then mark_step p cs pc words >>= (λ r. mark_from p cs fuel r.0 r.1)
    else ok words
