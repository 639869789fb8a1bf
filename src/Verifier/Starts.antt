-- ===== src/Verifier/Starts.antt =====
-- Where the instructions of a function start: a description of its code that does not refer to the
-- marks of the verifier (src/runtime/bytecode_verifier.cpp, src/compiler/opcode.hpp).
use lua.Prelude.{ℕ, ◌+◌, ◌<◌, ◌≡◌, none, some, if◌then◌else◌, length, get_or, arith}
use lua.Opcode.Metadata.{to_u8, closure, is_opcode}
use lua.Opcode.Instruction.{Instruction, get_opcode, getarg_bx}
use lua.Proto.{Info, Children, get_sub_proto, info}
use lua.Verifier.Marking.{has_extended_operand}

-- The number of upvalues that the closure of a CLOSURE word captures.
unfoldable pub captured : Children → Instruction → ℕ
captured cs i = elim (get_sub_proto cs (getarg_bx i)) [
  | none ↦ 0
  | some sub ↦ (info sub).num_upvalues
]

-- The words that the instruction `i` takes up with its operands.
unfoldable pub width : Children → Instruction → ℕ
unfolding to_u8
width cs i =
    if has_extended_operand i
    then 2
    else if is_opcode (get_opcode i) closure
    then captured cs i + 1
    else 1

pub data Start (p : Info) (cs : Children) : ℕ → Type 0 where
  first : Start p cs 0
  next :
      {pc pc' : ℕ}
      → Start p cs pc
      → pc < length p.code
      → pc' ≡ pc + width cs (get_or p.code pc 0)
      → Start p cs pc'

pub width-pos : (cs : Children) (i : Instruction) → 0 < width cs i
unfolding width
width-pos cs i = ground arith
