-- ===== src/Tests/JumpLists.antt =====
-- Two jump lists (src/compiler/codegen/jump_patcher.cpp) in three words.
use lua.Prelude.{ℕ, zero, suc, ◌^◌, ◌<◌, ◌≡◌, refl, List, [], ◌∷◌, arith}
use lua.Prelude.Int.{ℤ, pos, negsuc}
use lua.Prelude.Result.{ok}
use lua.Codegen.Chains.{
  Chain, ends, link, AreWords, Patched, patch_list-Patched, positions, collect_patch_list-Chain,
}
use lua.Codegen.Joins.{OneList, concat_jump_list-OneList}
use lua.Codegen.Jumps.{no_jump, patch_list, collect_patch_list, concat_jump_list}
use lua.Opcode.Instruction.{Instruction, create_asbx}
use lua.Opcode.Metadata.{jmp}

-- A list of the jumps 1 and 0, and one of the jump 2.
abbrev waiting : List Instruction
waiting = 2147450902 ∷ 2147434518 ∷ 2147450902 ∷ []

waiting_words :
    waiting
    ≡ create_asbx jmp 0 no_jump ∷ create_asbx jmp 0 (negsuc 1) ∷ create_asbx jmp 0 no_jump ∷ []
unfolding create_asbx lua.Opcode.Metadata.to_u8
waiting_words = refl

waiting-AreWords : AreWords waiting
waiting-AreWords zero = omega arith
waiting-AreWords (suc zero) = omega arith
waiting-AreWords (suc (suc zero)) = omega arith
waiting-AreWords (suc (suc (suc q))) = omega arith

two_jumps : Chain waiting (pos 1) (1 ∷ 0 ∷ [])
unfolding lua.Codegen.Jumps.follow lua.Opcode.Instruction.getarg_sbx
two_jumps = link (omega arith) refl (link (omega arith) refl ends)

one_jump : Chain waiting (pos 2) (2 ∷ [])
unfolding lua.Codegen.Jumps.follow lua.Opcode.Instruction.getarg_sbx
one_jump = link (omega arith) refl ends

patch_list-Patched_example :
    (code' : List Instruction) × (patch_list 3 waiting (pos 1) (pos 3) ≡ ok code')
    × Patched waiting (pos 3) (1 ∷ 0 ∷ []) code'
unfolding lua.Prelude.Int.◌-ℤ◌ lua.Prelude.Int.◌+ℤ◌
patch_list-Patched_example =
    patch_list-Patched 3 waiting (pos 1) (pos 3) (1 ∷ 0 ∷ []) two_jumps ((λ e. cc, tt), (tt, tt))
      (refl, (refl, tt)) waiting-AreWords (omega arith)

collect_patch_list-Chain_example :
    collect_patch_list 3 waiting (pos 1) ≡ ok (positions (1 ∷ 0 ∷ []))
collect_patch_list-Chain_example =
    collect_patch_list-Chain 3 waiting (pos 1) (1 ∷ 0 ∷ []) two_jumps (omega arith)

concat_jump_list-OneList_example :
    (r : List Instruction × ℤ) × (concat_jump_list 3 waiting (pos 1) (pos 2) ≡ ok r)
    × OneList waiting (1 ∷ 0 ∷ []) (2 ∷ []) r
unfolding lua.Prelude.Int.◌-ℤ◌ lua.Prelude.Int.◌+ℤ◌
concat_jump_list-OneList_example =
    concat_jump_list-OneList 3 waiting (pos 1) (pos 2) (1 ∷ 0 ∷ []) (2 ∷ []) two_jumps one_jump
      ((λ e. cc, (λ e. cc, tt)), ((λ e. cc, tt), (tt, tt))) (refl, (refl, tt)) waiting-AreWords
      (omega arith)
