-- ===== src/Verifier/Ends.antt =====
-- The verifier gives an answer on every input (src/runtime/bytecode_verifier.cpp).
use lua.Prelude.{
  ℕ, zero, suc, ◌+◌, ◌≢◌, refl, Bool, true, List, [], ◌∷◌, length, length-replicate, replicate,
  false, arith, get_or,
}
use lua.Prelude.Int.{ℤ, pos, ◌+ℤ◌}
use lua.Prelude.Result.{Result, ok, err, ◌>>=◌, ◌>>◌}
use lua.Opcode.Instruction.{get_opcode, getarg_sbx}
use lua.Opcode.Metadata.{OpCode, move}
use lua.Proto.{Info, Proto, proto, Children, done, child, null, ValueType, LocVar}
use lua.Verifier.Checks.{
  Rejection, Check, out_of_fuel, silent, reported, verify_target, verify_jump_at,
}
use lua.Verifier.Instructions.{verify_case, verify_instruction, unless}
use lua.Verifier.Marking.{Words, mark_from}
use lua.Verifier.Marks.{mark_from-ne-out_of_fuel}
use lua.Verifier.Walk.{
  BytecodeVerifierLimits, Counts, verify_constants, verify_locals, verify_from, verify_counts,
  verify_metadata, verify_body, verify_proto, verify_children, verify,
}

-- The answer is not that the fuel ran out.
abbrev Answers : {A : Type 0} → Result Rejection A → Type 0
Answers r = r ≢ err out_of_fuel

chain :
    {A B : Type 0} (m : Result Rejection A) (f : A → Result Rejection B)
    → Answers m
    → ((a : A) → Answers (f a))
    → Answers (m >>= f)
chain (ok a) f first next = next a
chain (err out_of_fuel) f first next = absurd (first refl)
chain (err silent) f first next = λ same. cc
chain (err (reported source line pc message)) f first next = λ same. cc

chain_check :
    {B : Type 0} (m : Check) (k : Result Rejection B) → Answers m → Answers k → Answers (m >> k)
chain_check (ok tt) k first next = next
chain_check (err out_of_fuel) k first next = absurd (first refl)
chain_check (err silent) k first next = λ same. cc
chain_check (err (reported source line pc message)) k first next = λ same. cc

target-Answers : (p : Info) (t : ℤ) (words : Words) (pc : ℕ) → Answers (verify_target p t words pc)
unfolding verify_target
target-Answers p t words pc e = ground arith

jump_at-Answers :
    (p : Info) (jump_pc : ℕ) (words : Words) (pc : ℕ) → Answers (verify_jump_at p jump_pc words pc)
unfolding verify_jump_at
jump_at-Answers p jump_pc words pc e = ground (
  arith,
  target-Answers p (pos jump_pc +ℤ pos 1 +ℤ getarg_sbx (get_or p.code jump_pc 0)) words pc,
)

unless-Answers :
    (p : Info) (words : Words) (pc i : ℕ) (b : Bool) (c : Check)
    → Answers c
    → Answers (unless p words pc i b c)
unfolding unless
unless-Answers p words pc i false c h e = h e
unless-Answers p words pc i true c h e = cc

metadata-Answers : (p : Info) → Answers (verify_metadata p)
unfolding verify_metadata
metadata-Answers p e = ground arith

constants-Answers : (p : Info) (vs : List ValueType) → Answers (verify_constants p vs)
unfolding verify_constants
constants-Answers p [] e = cc
constants-Answers p (v ∷ vs) e = ground (arith, constants-Answers p vs)

locals-Answers : (p : Info) (vs : List LocVar) → Answers (verify_locals p vs)
unfolding verify_locals
locals-Answers p [] e = cc
locals-Answers p (v ∷ vs) e = ground (arith, locals-Answers p vs)

case-Answers :
    (p : Info) (cs : Children) (words : Words) (pc i : ℕ) (o : OpCode)
    → Answers (verify_case p words pc i cs o)
unfolding verify_case
case-Answers p cs words pc i move e = ground arith
case-Answers p cs words pc i o e = ground (
  arith,
  target-Answers p (pos pc +ℤ pos 2) words pc,
  target-Answers p (pos pc +ℤ pos 1 +ℤ getarg_sbx i) words pc,
  jump_at-Answers p (pc + 1) words pc,
)

counts-Answers :
    (limits : BytecodeVerifierLimits) (p : Info) (depth : ℕ) (k : Counts)
    → Answers (verify_counts limits p depth k)
unfolding verify_counts
counts-Answers limits p depth k e = ground arith

from-Answers :
    (p : Info) (cs : Children) (words : Words) (rounds pc : ℕ)
    → Answers (verify_from p cs words rounds pc)
unfolding verify_from verify_instruction
from-Answers p cs words zero pc e = cc
from-Answers p cs words (suc rounds) pc e = ground (
  arith,
  case-Answers p cs words pc (get_or p.code pc 0) (get_opcode (get_or p.code pc 0)),
  from-Answers p cs words rounds (pc + 1),
)

marks-Answers :
    (p : Info) (cs : Children)
    → Answers (mark_from p cs (length p.code) 0 (replicate (length p.code) false))
marks-Answers p cs =
    mark_from-ne-out_of_fuel p cs (length p.code) 0 _ (omega arith)
      (length-replicate (length p.code) false)

body-Answers : (p : Info) (cs : Children) → Answers (verify_body p cs)
unfolding verify_body
body-Answers p cs = chain_check (verify_metadata p) _ (metadata-Answers p) (
    chain_check (verify_constants p p.constants) _ (constants-Answers p p.constants) (
      chain_check (verify_locals p p.loc_vars) _ (locals-Answers p p.loc_vars) (
        chain (mark_from p cs (length p.code) 0 (replicate (length p.code) false)) _
          (marks-Answers p cs)
          (λ words.
            chain_check (verify_from p cs words (length p.code) 0) _
              (from-Answers p cs words (length p.code) 0) (λ e. cc)))))

module _ (limits : BytecodeVerifierLimits) where
  mutual
    unfolding verify_proto

    proto-Answers : (t : Proto) (depth : ℕ) (k : Counts) → Answers (verify_proto limits t depth k)
    proto-Answers (proto p cs) depth k =
        chain (verify_counts limits p depth k) _ (counts-Answers limits p depth k) (λ k'.
          chain (verify_body p cs) _ (body-Answers p cs)
            (λ words. children-Answers p cs (depth + 1) k'))

    children-Answers :
        (p : Info) (cs : Children) (depth : ℕ) (k : Counts)
        → Answers (verify_children limits p cs depth k)
    children-Answers p done depth k = λ e. cc
    children-Answers p (child t cs) depth k =
        chain (verify_proto limits t depth k) _ (proto-Answers t depth k)
          (λ k'. children-Answers p cs depth k')
    children-Answers p (null cs) depth k = λ e. cc

  -- The verifier accepts or refuses every tree of prototypes: in the model the first loop over the code
  -- of a function has the number of its words as fuel, and it does not run out in any of them.
  pub verify-ne-out_of_fuel : (root : Proto) → verify limits root ≢ err out_of_fuel
  unfolding verify
  verify-ne-out_of_fuel root = proto-Answers root 1 _
