-- ===== src/Tests/Functions.antt =====
-- Accepted and refused functions (src/runtime/bytecode_verifier.cpp), and the registers of a function
-- (src/compiler/register_allocator.hpp).
use lua.Prelude.{
  ℕ, ◌+◌, ◌<◌, ◌≤◌, ◌≡◌, ◌≢◌, ◌↔◌, refl, true, false, max, ◌%◌, List, [], ◌∷◌, none, length, get_or,
  replicate, arith,
}
use lua.Prelude.Int.{pos}
use lua.Prelude.Result.{ok, err}
use lua.Opcode.Instruction.{create_abc, create_abx, create_asbx, get_opcode}
use lua.Opcode.Metadata.{loadk, jmp, closure, getupval, move, return}
use lua.Proto.{Info, Proto, proto, Children, done, child, number}
use lua.Registers.{RegisterAllocator, alloc, free_regs}
use lua.Registers.Bounds.{Covers, alloc-Covers, allocs, free_regs-allocs}
use lua.Verifier.Checks.{out_of_fuel}
use lua.Verifier.Ends.{verify-ne-out_of_fuel}
use lua.Verifier.Marking.{Words, mark_from}
use lua.Verifier.Marks.{mark_from-Start}
use lua.Verifier.Starts.{Start}
use lua.Verifier.Trees.{
  Verified, Within, total, functions, words, constants, debug_entries, verify-Verified,
}
use lua.Verifier.Walk.{Counts, default_limits, verify, verify_body}

abbrev code_info : List ℕ → ℕ → Info
code_info code upvalues = record {
  num_params = 0;
  vararg_flags = 0;
  max_stack_size = 2;
  num_upvalues = upvalues;
  source = none;
  line_defined = pos 0;
  code = code;
  constants = number ∷ [];
  line_info = [];
  loc_vars = [];
  upvalue_names = [];
}

-- local x = 1; goto the next line; return x
abbrev jumping : Info
jumping = code_info (1 ∷ 2147467286 ∷ 8388638 ∷ []) 0

jumping_words :
    jumping.code ≡ create_abx loadk 0 0 ∷ create_asbx jmp 0 (pos 0) ∷ create_abc return 0 1 0 ∷ []
unfolding create_abx create_asbx create_abc lua.Opcode.Metadata.to_u8
jumping_words = refl

-- return function () return end, with one captured register
abbrev inner : Proto
inner = proto (code_info (8388638 ∷ []) 1) done

abbrev capturing : Info
capturing = code_info (36 ∷ 0 ∷ 8388638 ∷ []) 0

capturing_words :
    capturing.code ≡ create_abx closure 0 0 ∷ create_abc move 0 0 0 ∷ create_abc return 0 1 0 ∷ []
unfolding create_abx create_abc lua.Opcode.Metadata.to_u8
capturing_words = refl

capturing-marks :
    mark_from capturing (child inner done) 3 0 (replicate 3 false) ≡ ok (false ∷ true ∷ false ∷ [])
unfolding mark_from lua.Verifier.Marking.mark_step lua.Opcode.Metadata.is_valid_opcode get_opcode
    lua.Opcode.Metadata.from_u8 lua.Verifier.Marking.has_extended_operand
    lua.Verifier.Marking.mark_closure lua.Proto.get_sub_proto lua.Opcode.Instruction.getarg_bx
    lua.Proto.info lua.Verifier.Marking.mark_pseudos lua.Opcode.Instruction.getarg_b
capturing-marks = refl

abbrev counted : Counts
counted = record {
  proto_count = 2;
  instruction_count = 4;
  constant_count = 2;
  debug_entry_count = 0;
}

capturing-accepted : verify default_limits (proto capturing (child inner done)) ≡ ok counted
unfolding verify lua.Verifier.Walk.verify_proto lua.Verifier.Walk.verify_counts verify_body
    lua.Verifier.Marking.mark_step lua.Opcode.Metadata.is_valid_opcode get_opcode
    lua.Opcode.Metadata.from_u8 lua.Verifier.Marking.has_extended_operand
    lua.Verifier.Marking.mark_closure lua.Proto.get_sub_proto lua.Opcode.Instruction.getarg_bx
    lua.Proto.info lua.Verifier.Marking.mark_pseudos lua.Opcode.Instruction.getarg_b
    lua.Verifier.Instructions.verify_instruction lua.Opcode.Instruction.getarg_a
    lua.Proto.get_sub_proto_count
capturing-accepted = refl

mark_from-Start_example :
    (length (false ∷ true ∷ false ∷ []) ≡ length capturing.code)
    × ((k : ℕ)
        → k < length capturing.code
        → (get_or (false ∷ true ∷ false ∷ []) k false ≡ false)
          ↔ Start capturing (child inner done) k)
    × ((k : ℕ) → Start capturing (child inner done) k → k ≤ length capturing.code)
mark_from-Start_example =
    mark_from-Start capturing (child inner done) (false ∷ true ∷ false ∷ []) capturing-marks

verify-ne-out_of_fuel_example :
    verify default_limits (proto capturing (child inner done)) ≢ err out_of_fuel
verify-ne-out_of_fuel_example =
    verify-ne-out_of_fuel default_limits (proto capturing (child inner done))

verify-Verified_example :
    Verified default_limits 1 (proto capturing (child inner done))
    × (2 ≡ total functions (proto capturing (child inner done)))
    × (4 ≡ total words (proto capturing (child inner done)))
    × (2 ≡ total constants (proto capturing (child inner done)))
    × (0 ≡ total debug_entries (proto capturing (child inner done)))
    × Within default_limits counted
verify-Verified_example =
    verify-Verified default_limits (proto capturing (child inner done)) counted capturing-accepted

abbrev full_frame : RegisterAllocator
full_frame = record { freereg = 255; max_stack_size = 255 }

alloc-Covers_example :
    ((alloc full_frame).1 ≡ 255)
    × ((alloc full_frame).0.freereg ≡ 256)
    × (Covers (alloc full_frame).0 ↔ (255 < 255))
    × ((alloc full_frame).0.max_stack_size ≡ max 255 256 % 256)
alloc-Covers_example = alloc-Covers full_frame (omega arith)

abbrev two_locals : RegisterAllocator
two_locals = record { freereg = 2; max_stack_size = 2 }

free_regs-allocs_example :
    ((free_regs (allocs two_locals 3) 3).freereg ≡ 2)
    × Covers (free_regs (allocs two_locals 3) 3)
    × (2 ≤ (free_regs (allocs two_locals 3) 3).max_stack_size)
free_regs-allocs_example = free_regs-allocs two_locals 3 (omega arith) (omega arith)
