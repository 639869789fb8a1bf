-- ===== src/Verifier/Demands.antt =====
-- What the machine takes for granted when it executes an instruction: the parts of the frame and of
-- the function that the operands name, and the values that they may have (src/vm/vm_handlers,
-- src/runtime/bytecode_verifier.cpp).
use lua.Prelude.{ℕ, Bool, true, ◌+◌, ◌-◌, ◌<◌, ◌≤◌, ◌≡◌, List, [], ◌∷◌, length, arith}
use lua.Prelude.Result.{ok}
use lua.Opcode.Metadata.{
  OpCode, move, loadk, loadbool, loadnil, getupval, getglobal, gettable, setglobal, setupval,
  settable, newtable, self, add, sub, mul, div, mod_op, pow, unm, not_op, len, concat, jmp, eq, lt,
  le, test, testset, call, tailcall, return, forloop, forprep, tforloop, setlist, close, closure,
  vararg, unnamed,
}
use lua.Opcode.Instruction.{Instruction, getarg_a, getarg_b, getarg_c, getarg_bx}
use lua.Proto.{Info, Children, get_sub_proto_count, is_vararg}
use lua.Verifier.Checks.{verify_register, verify_range, verify_rk}
use lua.Verifier.Instructions.{verify_case}
use lua.Verifier.Operands.{RkFits}

-- A part of the function or of its frame: `registers` has the first one and how many there are, and
-- `register_or_constant` an operand that is one or the other. Of operands that name nothing,
-- `choice` is 0 or 1, `positive` is not 0, and `ordered` has the ends of a range; `extra_arguments`
-- asks for a function that takes them.
pub data Demand : Type 0 where
  register constant upvalue prototype register_or_constant : ℕ → Demand
  registers ordered : ℕ → ℕ → Demand
  choice positive : ℕ → Demand
  extra_arguments : Demand

-- The frame or the function has the part, or the operand the value.
abbrev pub IsMet : Info → Children → Demand → Type 0
IsMet p cs (register x) = x < p.max_stack_size
IsMet p cs (constant x) = x < length p.constants
IsMet p cs (upvalue x) = x < p.num_upvalues
IsMet p cs (prototype x) = x < get_sub_proto_count cs
IsMet p cs (register_or_constant x) = RkFits p x
IsMet p cs (registers first count) = first + count ≤ p.max_stack_size
IsMet p cs (ordered x y) = x ≤ y
IsMet p cs (choice x) = x ≤ 1
IsMet p cs (positive x) = 1 ≤ x
IsMet p cs extra_arguments = is_vararg p ≡ true

abbrev pub AreMet : Info → Children → List Demand → Type 0
AreMet p cs [] = Unit
AreMet p cs (x ∷ xs) = IsMet p cs x × AreMet p cs xs

module _ (i : Instruction) where
  abbrev a : ℕ
  a = getarg_a i

  abbrev b : ℕ
  b = getarg_b i

  abbrev c : ℕ
  c = getarg_c i

  abbrev bx : ℕ
  bx = getarg_bx i

  -- The operands of an arithmetic instruction
  abbrev arithmetic : List Demand
  arithmetic = register a ∷ register_or_constant b ∷ register_or_constant c ∷ []

  -- By the operation code. A count of 0 in CALL, TAILCALL, RETURN, SETLIST and VARARG stands for what
  -- is below the top of the stack, which no operand names. FORPREP is for the loop that follows, whose
  -- variable is the fourth register. TFORLOOP has three registers and those of the results; for the
  -- arguments of its call the machine makes room in the stack.
  abbrev pub demands : OpCode → List Demand
  demands move = register a ∷ register b ∷ []
  demands loadk = register a ∷ constant bx ∷ []
  demands loadbool = register a ∷ []
  demands loadnil = ordered a b ∷ registers a (b + 1 - a) ∷ []
  demands getupval = register a ∷ upvalue b ∷ []
  demands getglobal = register a ∷ constant bx ∷ []
  demands gettable = register a ∷ register b ∷ register_or_constant c ∷ []
  demands setglobal = register a ∷ constant bx ∷ []
  demands setupval = register a ∷ upvalue b ∷ []
  demands settable = arithmetic
  demands newtable = register a ∷ []
  demands self = registers a 2 ∷ register b ∷ register_or_constant c ∷ []
  demands add = arithmetic
  demands sub = arithmetic
  demands mul = arithmetic
  demands div = arithmetic
  demands mod_op = arithmetic
  demands pow = arithmetic
  demands unm = register a ∷ register b ∷ []
  demands not_op = register a ∷ register b ∷ []
  demands len = register a ∷ register b ∷ []
  demands concat = register a ∷ ordered b c ∷ registers b (c + 1 - b) ∷ []
  demands jmp = []
  demands eq = choice a ∷ register_or_constant b ∷ register_or_constant c ∷ []
  demands lt = choice a ∷ register_or_constant b ∷ register_or_constant c ∷ []
  demands le = choice a ∷ register_or_constant b ∷ register_or_constant c ∷ []
  demands test = register a ∷ choice c ∷ []
  demands testset = register a ∷ register b ∷ choice c ∷ []
  demands call = register a ∷ registers a b ∷ registers a (c - 1) ∷ []
  demands tailcall = register a ∷ registers a b ∷ []
  demands return = registers a (b - 1) ∷ register a ∷ []
  demands forloop = registers a 4 ∷ []
  demands forprep = registers a 4 ∷ []
  demands tforloop = positive c ∷ registers a (c + 3) ∷ []
  demands setlist = register a ∷ registers (a + 1) b ∷ []
  demands close = register a ∷ []
  demands closure = register a ∷ prototype bx ∷ []
  demands vararg = extra_arguments ∷ registers a (b - 1) ∷ []
  demands (unnamed n) = []

module _ (p : Info) (words : List Bool) (pc : ℕ) (i : Instruction) (cs : Children) where
  pub verify_case-AreMet :
      (o : OpCode) → verify_case p words pc i cs o ≡ ok tt → AreMet p cs (demands i o)
  unfolding verify_case verify_register verify_range verify_rk
  verify_case-AreMet move e = ground arith
  verify_case-AreMet o e = ground arith
