-- ===== src/Verifier/Walk.antt =====
-- `verifyProto` over the tree of prototypes, and `BytecodeVerifier::verify`
-- (src/runtime/bytecode_verifier.cpp, bytecode_verifier.hpp).
use Prim.Native.Nat.{bit_and}
use lua.Prelude.{
  ℕ, zero, suc, ◌+◌, Bool, false, not, ◌&&◌, ◌||◌, List, [], ◌∷◌, none, ltb, leb, ◌==◌,
  if◌then◌else◌, length, get_or, replicate,
}
use lua.Prelude.Int.{pos, negsuc, pos_part, ltb_ℤ, eqb_ℤ}
use lua.Prelude.Result.{Result, ok, err, ◌>>=◌, ◌>>◌, require}
use lua.Opcode.Instruction.{not_u32}
use lua.Proto.{
  Info, Proto, proto, Children, done, child, null, LocVar, ValueType, vararg_hasarg,
  vararg_isvararg, vararg_needsarg,
}
use lua.Verifier.Checks.{Rejection, Check, fail, add_within, is_constant_value, register_fits}
use lua.Verifier.Instructions.{verify_instruction}
use lua.Verifier.Marking.{mark_from, Words}

pub record BytecodeVerifierLimits : Type 0 where
  pub max_proto_depth : ℕ
  pub max_proto_count : ℕ
  pub max_instruction_count : ℕ
  pub max_constant_count : ℕ
  pub max_debug_entries : ℕ

abbrev pub default_limits : BytecodeVerifierLimits
default_limits = record {
  max_proto_depth = 200;
  max_proto_count = 10_000;
  max_instruction_count = 1_000_000;
  max_constant_count = 1_000_000;
  max_debug_entries = 1_000_000;
}

-- The counters of the `Verifier` object. `protoStack_` is the nest of the calls below.
pub record Counts : Type 0 where
  pub proto_count : ℕ
  pub instruction_count : ℕ
  pub constant_count : ℕ
  pub debug_entry_count : ℕ

unfoldable pub verify_constants : Info → List ValueType → Check
unfolding is_constant_value
verify_constants p [] = ok tt
verify_constants p (v ∷ vs) =
    require (is_constant_value v) (fail p none "unsupported constant type") >> verify_constants p vs

abbrev local_fits : Info → LocVar → Bool
local_fits p l = not (
    ltb_ℤ l.startpc (pos 0)
    || ltb_ℤ l.endpc l.startpc
    || ltb (length p.code) (pos_part l.endpc)
    || (not (eqb_ℤ l.reg (negsuc 0)) && not (register_fits l.reg p.max_stack_size)))

unfoldable pub verify_locals : Info → List LocVar → Check
verify_locals p [] = ok tt
verify_locals p (l ∷ ls) =
    require (local_fits p l) (fail p none "invalid local-variable metadata") >> verify_locals p ls

-- The second loop over the code, on the rounds left.
unfoldable pub verify_from : Info → Children → Words → ℕ → ℕ → Check
verify_from p cs words zero pc = ok tt
verify_from p cs words (suc rounds) pc =
    (if get_or words pc false then ok tt else verify_instruction p cs pc words)
    >> verify_from p cs words rounds (pc + 1)

unfoldable pub verify_counts : BytecodeVerifierLimits → Info → ℕ → Counts → Result Rejection Counts
unfolding add_within
verify_counts limits p depth k = do
  require (leb depth limits.max_proto_depth) (fail p none "Proto nesting limit exceeded")
  require (leb (k.proto_count + 1) limits.max_proto_count)
      (fail p none "Proto count limit exceeded")
  instructions ←
      add_within p (length p.code) k.instruction_count limits.max_instruction_count
        "instruction count limit exceeded"
  constants ←
      add_within p (length p.constants) k.constant_count limits.max_constant_count
        "constant count limit exceeded"
  entries ←
      add_within p (length p.line_info + length p.loc_vars + length p.upvalue_names)
        k.debug_entry_count limits.max_debug_entries "debug entry limit exceeded"
  ok (record {
    proto_count = k.proto_count + 1;
    instruction_count = instructions;
    constant_count = constants;
    debug_entry_count = entries;
  })

unfoldable pub verify_metadata : Info → Check
verify_metadata p =
    require (not (p.max_stack_size == 0 || ltb p.max_stack_size p.num_params))
      (fail p none "invalid function stack metadata")
    >> require
        (bit_and p.vararg_flags (not_u32 (vararg_hasarg + vararg_isvararg + vararg_needsarg)) == 0)
        (fail p none "invalid vararg flags")
    >> require (not (length p.code == 0)) (fail p none "empty instruction stream")
    >> require (length p.line_info == 0 || length p.line_info == length p.code)
        (fail p none "line metadata count does not match code")
    >> require (leb (length p.upvalue_names) p.num_upvalues) (fail p none "too many upvalue names")

-- The checks of one function without its children: the marks of its words.
unfoldable pub verify_body : Info → Children → Result Rejection Words
unfolding verify_metadata verify_constants verify_locals mark_from verify_from
verify_body p cs = do
  verify_metadata p
  verify_constants p p.constants
  verify_locals p p.loc_vars
  words ← mark_from p cs (length p.code) 0 (replicate (length p.code) false)
  verify_from p cs words (length p.code) 0
  ok words

unfoldable mutual
  pub verify_proto : BytecodeVerifierLimits → Proto → ℕ → Counts → Result Rejection Counts
  verify_proto limits (proto p cs) depth k = do
    k' ← verify_counts limits p depth k
    _ ← verify_body p cs
    verify_children limits p cs (depth + 1) k'

  pub verify_children :
      BytecodeVerifierLimits → Info → Children → ℕ → Counts → Result Rejection Counts
  verify_children limits p done depth k = ok k
  verify_children limits p (child c cs) depth k =
      verify_proto limits c depth k >>= verify_children limits p cs depth
  verify_children limits p (null cs) depth k = err (fail p none "null child Proto")

unfoldable pub verify : BytecodeVerifierLimits → Proto → Result Rejection Counts
verify limits root =
    verify_proto limits root 1
      (record { proto_count = 0; instruction_count = 0; constant_count = 0; debug_entry_count = 0 })
