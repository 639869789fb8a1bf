-- ===== src/Verifier/Flow.antt =====
-- The moves of the program counter in the machine's handlers (src/vm/vm_handlers, vm_loop.cpp,
-- vm_frame.cpp), and where they lead in a function that the verifier accepts
-- (src/runtime/bytecode_verifier.cpp).
use lua.Prelude.{ℕ, zero, suc, ◌+◌, ◌<◌, ◌≤◌, ◌≡◌, ◌≢◌, refl, true, false, length, get_or, arith}
use native.Mathlib.Decide.{ℕ_discrete}
use lua.Prelude.Int.{ℤ, pos, ◌+ℤ◌}
use lua.Prelude.Result.{ok, >>-eq-ok}
use lua.Opcode.Metadata.{
  is_opcode, OpCode, to_u8, loadbool, jmp, eq, lt, le, test, testset, forloop, forprep, tforloop,
}
use lua.Opcode.Instruction.{Instruction, get_opcode, getarg_c, getarg_sbx}
use lua.Proto.{Info, Children}
use lua.Verifier.Checks.{verify_target, verify_jump_at}
use lua.Verifier.Instructions.{verify_instruction, verify_case}
use lua.Verifier.Marking.{Words, has_extended_operand}
use lua.Verifier.Starts.{width}
use lua.Verifier.Walk.{verify_from}

-- The instructions that move the counter by their own offset.
abbrev pub IsJump : OpCode → Type 0
IsJump jmp = Unit
IsJump forloop = Unit
IsJump forprep = Unit
IsJump _ = ⊥

-- Those that read the offset of the JMP behind them, or step over it.
abbrev pub IsTest : OpCode → Type 0
IsTest test = Unit
IsTest testset = Unit
IsTest tforloop = Unit
IsTest _ = ⊥

-- Those that may leave out the next instruction.
abbrev pub IsSkip : Instruction → OpCode → Type 0
IsSkip i loadbool = getarg_c i ≢ 0
IsSkip i eq = Unit
IsSkip i lt = Unit
IsSkip i le = Unit
IsSkip i _ = ⊥

-- Those behind which the machine may go on with the next instruction. SETLIST and CLOSURE step
-- over their operands, which `width` counts. RETURN is among them, though it ends the function.
abbrev pub FallsThrough : OpCode → Type 0
FallsThrough jmp = ⊥
FallsThrough forprep = ⊥
FallsThrough test = ⊥
FallsThrough testset = ⊥
FallsThrough tforloop = ⊥
FallsThrough _ = Unit

-- The counter moves from `pc` to `pc'` when the word at `pc` is executed.
pub data Flow (p : Info) (cs : Children) (pc pc' : ℕ) : Type 0 where
  along :
      FallsThrough (get_opcode (get_or p.code pc 0))
      → pc' ≡ pc + width cs (get_or p.code pc 0)
      → Flow p cs pc pc'
  jumps :
      IsJump (get_opcode (get_or p.code pc 0))
      → pos pc +ℤ pos 1 +ℤ getarg_sbx (get_or p.code pc 0) ≡ pos pc'
      → Flow p cs pc pc'
  skips :
      IsSkip (get_or p.code pc 0) (get_opcode (get_or p.code pc 0))
      → pc' ≡ pc + 2
      → Flow p cs pc pc'
  passes : IsTest (get_opcode (get_or p.code pc 0)) → pc' ≡ pc + 2 → Flow p cs pc pc'
  branches :
      IsTest (get_opcode (get_or p.code pc 0))
      → pos (pc + 1) +ℤ pos 1 +ℤ getarg_sbx (get_or p.code (pc + 1) 0) ≡ pos pc'
      → Flow p cs pc pc'

-- The main loop runs while the counter is within the code.
pub data Reach (p : Info) (cs : Children) : ℕ → Type 0 where
  entry : Reach p cs 0
  step : {pc pc' : ℕ} → Reach p cs pc → pc < length p.code → Flow p cs pc pc' → Reach p cs pc'

module _ (p : Info) (cs : Children) (words : Words) where
  pub verify_from-instruction :
      (rounds pc k : ℕ)
      → verify_from p cs words rounds pc ≡ ok tt
      → pc ≤ k
      → k < pc + rounds
      → get_or words k false ≡ false
      → verify_instruction p cs k words ≡ ok tt
  unfolding verify_from
  verify_from-instruction zero pc k e lo hi clear = absurd (omega arith)
  verify_from-instruction (suc rounds) pc k e lo hi clear =
      let (here, rest) = >>-eq-ok _ (verify_from p cs words rounds (pc + 1)) e in
      elim (ℕ_discrete pc k) [
        | yes same ↦ ground arith
        | no ne ↦ verify_from-instruction rounds (pc + 1) k rest (omega arith) (omega arith) clear
      ]

  pub verify_target_lem :
      (t : ℤ) (pc k : ℕ)
      → verify_target p t words pc ≡ ok tt
      → t ≡ pos k
      → (k < length words) × (get_or words k false ≡ false)
  unfolding verify_target
  verify_target_lem t pc k e same = ground arith

  module _ (pc : ℕ) (i : Instruction) where
    pub case-jump :
        (o : OpCode)
        → IsJump o
        → verify_case p words pc i cs o ≡ ok tt
        → verify_target p (pos pc +ℤ pos 1 +ℤ getarg_sbx i) words pc ≡ ok tt
    unfolding verify_case
    case-jump jmp j e = e
    case-jump _ j e = ground arith

    pub case-skip :
        (o : OpCode)
        → IsSkip i o
        → verify_case p words pc i cs o ≡ ok tt
        → verify_target p (pos pc +ℤ pos 2) words pc ≡ ok tt
    unfolding verify_case
    case-skip loadbool j e = ground arith
    case-skip _ j e = ground arith

    pub case-test :
        (o : OpCode)
        → IsTest o
        → verify_case p words pc i cs o ≡ ok tt
        → (verify_jump_at p (pc + 1) words pc ≡ ok tt)
    unfolding verify_case
    case-test test j e = ground arith
    case-test _ j e = ground arith

  pub verify_jump_at_lem :
      (at pc : ℕ)
      → verify_jump_at p at words pc ≡ ok tt
      → (at < length p.code)
        × (is_opcode (get_opcode (get_or p.code at 0)) jmp ≡ true)
        × (verify_target p (pos at +ℤ pos 1 +ℤ getarg_sbx (get_or p.code at 0)) words pc ≡ ok tt)
  unfolding verify_jump_at
  verify_jump_at_lem at pc e = ground arith

  pub jmp-width : (i : Instruction) → is_opcode (get_opcode i) jmp ≡ true → width cs i ≡ 1
  unfolding width has_extended_operand to_u8
  jmp-width i e = ground arith

  pub test-width : (i : Instruction) → IsTest (get_opcode i) → width cs i ≡ 1
  unfolding width has_extended_operand to_u8
  test-width i e = by_opcode (get_opcode i) refl e
    where
      by_opcode : (o : OpCode) → get_opcode i ≡ o → IsTest o → width cs i ≡ 1
      by_opcode test same h = ground arith
      by_opcode _ same h = ground arith
