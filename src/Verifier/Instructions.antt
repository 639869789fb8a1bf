-- ===== src/Verifier/Instructions.antt =====
-- `verifyInstruction`: the checks of one instruction word (src/runtime/bytecode_verifier.cpp).
use lua.Prelude.{
  ℕ, ◌+◌, ◌-◌, Bool, true, false, ◌||◌, List, some, ltb, leb, ◌==◌, if◌then◌else◌, length, get_or,
}
use lua.Prelude.Int.{pos, sub_ℕ, ◌+ℤ◌}
use lua.Prelude.Result.{ok, err, ◌>>◌, require}
use lua.Opcode.Metadata.{
  OpCode, move, loadk, loadbool, loadnil, getupval, getglobal, gettable, setglobal, setupval,
  settable, newtable, self, add, sub, mul, div, mod_op, pow, unm, not_op, len, concat, jmp, eq, lt,
  le, test, testset, call, tailcall, return, forloop, forprep, tforloop, setlist, close, closure,
  vararg, unnamed,
}
use lua.Opcode.Instruction.{
  Instruction, get_opcode, getarg_a, getarg_b, getarg_c, getarg_bx, getarg_sbx,
}
use lua.Proto.{Info, Children, get_sub_proto_count, is_vararg}
use lua.Verifier.Checks.{
  silent, Check, fail, verify_register, verify_range, verify_rk, verify_target, verify_jump_at,
}

-- The lambdas of the method, over the operands of the word `i` at `pc`.
module _ (p : Info) (words : List Bool) (pc : ℕ) (i : Instruction) where
  reg_a : Check
  unfolding verify_register
  reg_a = verify_register p (pos (getarg_a i)) p.max_stack_size pc

  reg_b : Check
  unfolding verify_register
  reg_b = verify_register p (pos (getarg_b i)) p.max_stack_size pc

  rk_b : Check
  unfolding verify_rk
  rk_b = verify_rk p (getarg_b i) p.max_stack_size pc

  rk_c : Check
  unfolding verify_rk
  rk_c = verify_rk p (getarg_c i) p.max_stack_size pc

  jump : Check
  jump = verify_target p (pos pc +ℤ pos 1 +ℤ getarg_sbx i) words pc

  constant_bx : Check
  constant_bx =
      require (ltb (getarg_bx i) (length p.constants))
        (fail p (some pc) "constant index out of range")

  upvalue_b : Check
  upvalue_b =
      require (ltb (getarg_b i) p.num_upvalues) (fail p (some pc) "upvalue index out of range")

  -- The register range from R(A).
  range_a : ℕ → Check
  unfolding verify_range
  range_a count = verify_range p (pos (getarg_a i)) (pos count) p.max_stack_size pc

  skip_target : Check
  skip_target = verify_target p (pos pc +ℤ pos 2) words pc

  jump_behind : Check
  jump_behind = verify_jump_at p (pc + 1) words pc

  -- A side of `||` that passes only if the other fails.
  unfoldable pub unless : Bool → Check → Check
  unless true check = ok tt
  unless false check = check

  -- The cases of the `switch`.
  unfoldable pub verify_case : Children → OpCode → Check
  unfolding reg_a reg_b rk_b rk_c constant_bx upvalue_b range_a unless jump skip_target jump_behind
  verify_case cs move = reg_a >> reg_b
  verify_case cs loadk = reg_a >> constant_bx
  verify_case cs loadbool = reg_a >> unless (getarg_c i == 0) skip_target
  verify_case cs loadnil =
      require (leb (getarg_a i) (getarg_b i)) silent
      >> verify_range p (pos (getarg_a i)) (sub_ℕ (getarg_b i + 1) (getarg_a i)) p.max_stack_size pc
  verify_case cs getupval = reg_a >> upvalue_b
  verify_case cs getglobal = reg_a >> constant_bx
  verify_case cs gettable = reg_a >> reg_b >> rk_c
  verify_case cs setglobal = reg_a >> constant_bx
  verify_case cs setupval = reg_a >> upvalue_b
  verify_case cs settable = reg_a >> rk_b >> rk_c
  verify_case cs newtable = reg_a
  verify_case cs self = range_a 2 >> reg_b >> rk_c
  verify_case cs add = reg_a >> rk_b >> rk_c
  verify_case cs sub = reg_a >> rk_b >> rk_c
  verify_case cs mul = reg_a >> rk_b >> rk_c
  verify_case cs div = reg_a >> rk_b >> rk_c
  verify_case cs mod_op = reg_a >> rk_b >> rk_c
  verify_case cs pow = reg_a >> rk_b >> rk_c
  verify_case cs unm = reg_a >> reg_b
  verify_case cs not_op = reg_a >> reg_b
  verify_case cs len = reg_a >> reg_b
  verify_case cs concat =
      reg_a
      >> require (leb (getarg_b i) (getarg_c i)) silent
      >> verify_range p (pos (getarg_b i)) (sub_ℕ (getarg_c i + 1) (getarg_b i)) p.max_stack_size pc
  verify_case cs jmp = jump
  verify_case cs eq = require (leb (getarg_a i) 1) silent >> rk_b >> rk_c >> skip_target
  verify_case cs lt = require (leb (getarg_a i) 1) silent >> rk_b >> rk_c >> skip_target
  verify_case cs le = require (leb (getarg_a i) 1) silent >> rk_b >> rk_c >> skip_target
  verify_case cs test = reg_a >> require (leb (getarg_c i) 1) silent >> jump_behind
  verify_case cs testset = reg_a >> reg_b >> require (leb (getarg_c i) 1) silent >> jump_behind
  verify_case cs call =
      reg_a
      >> unless (getarg_b i == 0) (range_a (getarg_b i))
      >> unless (getarg_c i == 0 || getarg_c i == 1) (range_a (getarg_c i - 1))
  verify_case cs tailcall = reg_a >> unless (getarg_b i == 0) (range_a (getarg_b i))
  verify_case cs return =
      reg_a >> unless (getarg_b i == 0 || getarg_b i == 1) (range_a (getarg_b i - 1))
  verify_case cs forloop = range_a 4 >> jump
  verify_case cs forprep = range_a 4 >> jump
  verify_case cs tforloop =
      require (ltb 0 (getarg_c i)) silent >> range_a (getarg_c i + 3) >> jump_behind
  verify_case cs setlist =
      reg_a
      >> unless (getarg_b i == 0)
          (verify_range p (pos (getarg_a i + 1)) (pos (getarg_b i)) p.max_stack_size pc)
  verify_case cs close = reg_a
  verify_case cs closure = reg_a >> require (ltb (getarg_bx i) (get_sub_proto_count cs)) silent
  verify_case cs vararg =
      require (is_vararg p) silent
      >> range_a (if getarg_b i == 0 || getarg_b i == 1 then 0 else getarg_b i - 1)
  verify_case cs (unnamed n) = err (fail p (some pc) "unknown opcode")

unfoldable pub verify_instruction : Info → Children → ℕ → List Bool → Check
unfolding verify_case
verify_instruction p cs pc words =
    let i = get_or p.code pc 0 in verify_case p words pc i cs (get_opcode i)
