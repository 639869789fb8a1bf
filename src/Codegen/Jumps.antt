-- ===== src/Codegen/Jumps.antt =====
-- Jump lists (src/compiler/codegen/jump_patcher.cpp, with the emitter of bytecode_builder.hpp). The
-- jumps that wait for a target are linked through their own offsets. A position is an `i32`.
use lua.Prelude.{
  ℕ, zero, suc, ◌-◌, Bool, ◌&&◌, ◌||◌, List, [], ◌∷◌, ◌++◌, ltb, ◌==◌, if◌then◌else◌, length,
  get_or, set,
}
use lua.Prelude.Int.{ℤ, pos, negsuc, ◌+ℤ◌, ◌-ℤ◌, ltb_ℤ, eqb_ℤ}
use lua.Prelude.Result.{Result, ok, err, ◌>>=◌}
use lua.Opcode.Instruction.{
  Instruction, create_abc, create_asbx, getarg_sbx, setarg_sbx, maxarg_sbx, no_reg,
}
use lua.Opcode.Metadata.{OpCode, jmp, test, testset, to_u8, is_opcode}

-- `out_of_fuel` stands for a list that never ends, as a cyclic one.
pub data JumpError : Type 0 where
  out_of_range too_long out_of_fuel : JumpError

abbrev pub no_jump : ℤ
no_jump = negsuc 0

-- The code of the function, and `jpc_`: the jumps to the next instruction.
pub record JumpState : Type 0 where
  pub code : List Instruction
  pub jpc : ℤ

unfoldable pub instruction : List Instruction → ℤ → Result JumpError Instruction
instruction code (pos pc) = if ltb pc (length code) then ok (get_or code pc 0) else err out_of_range
instruction code (negsuc pc) = err out_of_range

unfoldable pub replace_instruction :
    List Instruction → ℤ → Instruction → Result JumpError (List Instruction)
replace_instruction code (pos pc) i =
    if ltb pc (length code) then ok (set code pc i) else err out_of_range
replace_instruction code (negsuc pc) i = err out_of_range

-- The offset of a jump at `pc`, as the next position of its list.
unfoldable pub follow : ℤ → ℤ → ℤ
unfolding ◌+ℤ◌
follow pc offset = if eqb_ℤ offset no_jump then no_jump else pc +ℤ pos 1 +ℤ offset

unfoldable pub get_jump : List Instruction → ℤ → Result JumpError ℤ
unfolding instruction getarg_sbx follow
get_jump code pc = instruction code pc >>= (λ i. ok (follow pc (getarg_sbx i)))

-- offset > MAXARG_sBx || offset < -MAXARG_sBx
abbrev pub too_far : ℤ → Bool
too_far offset = ltb_ℤ (pos maxarg_sbx) offset || ltb_ℤ offset (negsuc (maxarg_sbx - 1))

unfoldable pub fix_jump : List Instruction → ℤ → ℤ → Result JumpError (List Instruction)
unfolding instruction replace_instruction setarg_sbx ◌+ℤ◌ ◌-ℤ◌
fix_jump code pc dest =
    let offset = dest -ℤ (pc +ℤ pos 1) in
    instruction code pc >>= (λ jump.
      if too_far offset then err too_long else replace_instruction code pc (setarg_sbx jump offset))

-- while (list != NO_JUMP), on fuel
unfoldable pub patch_list : ℕ → List Instruction → ℤ → ℤ → Result JumpError (List Instruction)
unfolding get_jump fix_jump
patch_list zero code list target = err out_of_fuel
patch_list (suc fuel) code list target =
    if eqb_ℤ list no_jump
    then ok code
    else get_jump code list
      >>= (λ next. fix_jump code list target >>= (λ code'. patch_list fuel code' next target))

-- `patchList` of the positions of a `PatchList`.
unfoldable pub patch_pcs : List Instruction → List ℤ → ℤ → Result JumpError (List Instruction)
unfolding fix_jump
patch_pcs code [] target = ok code
patch_pcs code (pc ∷ pcs) target = fix_jump code pc target >>= (λ code'. patch_pcs code' pcs target)

-- The loop of `concatJumpList`: the last position of a list.
unfoldable pub last_jump : ℕ → List Instruction → ℤ → Result JumpError ℤ
unfolding get_jump
last_jump zero code list = err out_of_fuel
last_jump (suc fuel) code list =
    get_jump code list
    >>= (λ next. if eqb_ℤ next no_jump then ok list else last_jump fuel code next)

-- The code and the list `left` after `concatJumpList`.
unfoldable pub concat_jump_list :
    ℕ → List Instruction → ℤ → ℤ → Result JumpError (List Instruction × ℤ)
unfolding last_jump fix_jump
concat_jump_list fuel code left right =
    if eqb_ℤ right no_jump
    then ok (code, left)
    else if eqb_ℤ left no_jump
    then ok (code, right)
    else last_jump fuel code left
      >>= (λ list. fix_jump code list right >>= (λ code'. ok (code', left)))

unfoldable pub get_label : JumpState → ℤ
get_label s = pos (length s.code)

unfoldable pub emit_jump : ℕ → JumpState → Result JumpError (JumpState × ℤ)
unfolding concat_jump_list create_asbx
emit_jump fuel s =
    let jump_pc = pos (length s.code) in
    concat_jump_list fuel (s.code ++ create_asbx jmp 0 no_jump ∷ []) jump_pc s.jpc
    >>= (λ r. ok (record { code = r.0; jpc = no_jump }, r.1))

unfoldable pub flush_pending_jumps : ℕ → JumpState → Result JumpError JumpState
unfolding patch_list get_label
flush_pending_jumps fuel s =
    patch_list fuel s.code s.jpc (get_label s)
    >>= (λ code. ok (record { code = code; jpc = no_jump }))

unfoldable pub emit_conditional_jump :
    ℕ → JumpState → OpCode → ℕ → ℕ → ℕ → Result JumpError (JumpState × ℤ)
unfolding flush_pending_jumps emit_jump create_abc to_u8
emit_conditional_jump fuel s op a b c =
    let plain = is_opcode op testset && (a == no_reg) in
    let word = if plain then create_abc test b 0 c else create_abc op a b c in
    flush_pending_jumps fuel s
    >>= (λ s'. emit_jump fuel (record s' { code = s'.code ++ word ∷ [] }))

-- `patchToHere`, but for the copy of the length of the code that it leaves in `pc`
unfoldable pub patch_to_here : ℕ → JumpState → ℤ → Result JumpError JumpState
unfolding concat_jump_list
patch_to_here fuel s list =
    concat_jump_list fuel s.code s.jpc list >>= (λ r. ok (record { code = r.0; jpc = r.1 }))

unfoldable pub collect_patch_list : ℕ → List Instruction → ℤ → Result JumpError (List ℤ)
unfolding get_jump
collect_patch_list zero code list = err out_of_fuel
collect_patch_list (suc fuel) code list =
    if eqb_ℤ list no_jump
    then ok []
    else get_jump code list
      >>= (λ next. collect_patch_list fuel code next >>= (λ pcs. ok (list ∷ pcs)))
