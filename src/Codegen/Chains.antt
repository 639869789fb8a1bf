-- ===== src/Codegen/Chains.antt =====
-- What patching does to a jump list (src/compiler/codegen/jump_patcher.cpp).
use native.Mathlib.Decide.{ℕ_discrete}
use lua.Prelude.{
  ℕ, zero, suc, ◌^◌, ◌<◌, ◌≡◌, ◌≢◌, refl, sym, ◌∙◌, false, List, [], ◌∷◌, lt→ltb, length,
  length-set, get_or, set, get_or-set_self, get_or-set_ne, arith,
}
use lua.Prelude.Int.{ℤ, pos, ◌+ℤ◌, ◌-ℤ◌, eqb_ℤ, int_laws}
use lua.Prelude.Result.{ok}
use lua.Codegen.Jumps.{
  no_jump, instruction, replace_instruction, follow, get_jump, too_far, fix_jump, patch_list,
  collect_patch_list,
}
use lua.Opcode.Instruction.{Instruction, getarg_sbx, setarg_sbx, get_opcode, getarg_a}
use lua.Opcode.RoundTrip.{FitsSbx, fields-setarg_sbx}

-- The list from `list` on is at the positions `ps`.
pub data Chain (code : List Instruction) : ℤ → List ℕ → Type 0 where
  ends : Chain code no_jump []
  link :
      {p : ℕ} {next : ℤ} {ps : List ℕ}
      → p < length code
      → follow (pos p) (getarg_sbx (get_or code p 0)) ≡ next
      → Chain code next ps
      → Chain code (pos p) (p ∷ ps)

-- A chain of positions, taken apart.
pub Chain-head :
    {code : List Instruction} {list : ℤ} {p : ℕ} {ps : List ℕ}
    → Chain code list (p ∷ ps)
    → (list ≡ pos p)
      × (p < length code)
      × Chain code (follow (pos p) (getarg_sbx (get_or code p 0))) ps
Chain-head (link hp e rest) = (refl, hp, rw e rest)

pub Chain-none : {code : List Instruction} {list : ℤ} → Chain code list [] → list ≡ no_jump
Chain-none ends = refl

abbrev pub NotIn : ℕ → List ℕ → Type 0
NotIn p [] = Unit
NotIn p (q ∷ qs) = (p ≢ q) × NotIn p qs

-- No position occurs twice.
abbrev pub Distinct : List ℕ → Type 0
Distinct [] = Unit
Distinct (p ∷ ps) = NotIn p ps × Distinct ps

-- The offset of a jump from `p` to `target`.
abbrev pub offset_to : ℤ → ℕ → ℤ
offset_to target p = target -ℤ (pos p +ℤ pos 1)

-- The target is within reach of every position.
abbrev pub InReach : ℤ → List ℕ → Type 0
InReach target [] = Unit
InReach target (p ∷ ps) = (too_far (offset_to target p) ≡ false) × InReach target ps

-- Every position has a jump to the target.
abbrev pub JumpTo : ℤ → List Instruction → List ℕ → Type 0
JumpTo target code [] = Unit
JumpTo target code (p ∷ ps) =
    (pos p +ℤ pos 1 +ℤ getarg_sbx (get_or code p 0) ≡ target) × JumpTo target code ps

abbrev pub AreWords : List Instruction → Type 0
AreWords code = (q : ℕ) → get_or code q 0 < 2 ^ 32

-- Operation code and A of each word are as they were.
abbrev pub SameBut : List Instruction → List Instruction → Type 0
SameBut code code' =
    (q : ℕ)
    → (get_opcode (get_or code' q 0) ≡ get_opcode (get_or code q 0))
      × (getarg_a (get_or code' q 0) ≡ getarg_a (get_or code q 0))

near-FitsSbx : (n : ℤ) → too_far n ≡ false → FitsSbx n
near-FitsSbx n h = ground arith

land : (target : ℤ) (p : ℕ) → pos p +ℤ pos 1 +ℤ offset_to target p ≡ target
land target p = omega int_laws

-- One jump is fixed.
pub record Fixed (code : List Instruction) (p : ℕ) (target : ℤ) (code' : List Instruction)
    : Type 0 where
  pub run : fix_jump code (pos p) target ≡ ok code'
  pub size : length code' ≡ length code
  pub lands : pos p +ℤ pos 1 +ℤ getarg_sbx (get_or code' p 0) ≡ target
  pub others : (q : ℕ) → q ≢ p → get_or code' q 0 ≡ get_or code q 0
  pub fields : SameBut code code'
  pub words : AreWords code'

pub fix_jump-Fixed :
    (code : List Instruction) (p : ℕ) (target : ℤ)
    → p < length code
    → AreWords code
    → too_far (offset_to target p) ≡ false
    → (code' : List Instruction) × Fixed code p target code'
unfolding fix_jump instruction replace_instruction
fix_jump-Fixed code p target h w near =
    let i = get_or code p 0 in
    let (sbx, op, a, word) =
      fields-setarg_sbx i (offset_to target p) (w p) (near-FitsSbx (offset_to target p) near) in
    let j = setarg_sbx i (offset_to target p) in
    let here = get_or-set_self code p j 0 h in
    (
      set code p j,
      record {
        run = rw (lt→ltb p (length code) h, near) refl;
        size = length-set code p j;
        lands = rw (here, sbx) (land target p);
        others = λ q ne. get_or-set_ne code p q j 0 (λ e. ne (sym e));
        fields = λ q. elim (ℕ_discrete q p) [
          | yes e ↦ rw (e, here) (op, a)
          | no ne ↦ rw (get_or-set_ne code p q j 0 (λ e. ne (sym e))) (refl, refl)
        ];
        words = λ q. elim (ℕ_discrete q p) [
          | yes e ↦ rw (e, here) word
          | no ne ↦ rw (get_or-set_ne code p q j 0 (λ e. ne (sym e))) (w q)
        ];
      },
    )

-- A chain does not depend on the words elsewhere.
pub Chain-others :
    (code code' : List Instruction) (p : ℕ) {list : ℤ} (ps : List ℕ)
    → length code' ≡ length code
    → ((q : ℕ) → q ≢ p → get_or code' q 0 ≡ get_or code q 0)
    → NotIn p ps
    → Chain code list ps
    → Chain code' list ps
Chain-others code code' p [] size others away ends = ends
Chain-others code code' p (q ∷ ps) size others (ne, away) (link h e rest) =
    link (rw size h) (rw (others q (λ same. ne (sym same))) e)
      (Chain-others code code' p ps size others away rest)

pub get_jump_lem :
    (code : List Instruction) (p : ℕ)
    → p < length code
    → get_jump code (pos p) ≡ ok (follow (pos p) (getarg_sbx (get_or code p 0)))
unfolding get_jump instruction
get_jump_lem code p h = rw (lt→ltb p (length code) h) refl

pub not_end : (p : ℕ) → eqb_ℤ (pos p) no_jump ≡ false
not_end p = ground arith

-- What patching the list at `ps` gives.
pub record Patched (code : List Instruction) (target : ℤ) (ps : List ℕ) (code' : List Instruction)
    : Type 0 where
  pub size : length code' ≡ length code
  pub lands : JumpTo target code' ps
  pub others : (q : ℕ) → NotIn q ps → get_or code' q 0 ≡ get_or code q 0
  pub fields : SameBut code code'

-- A list whose positions are distinct and within reach of the target, with any fuel beyond its
-- length, is patched to the end: every jump of the list leads to the target, and every other word of
-- the code, and every operation code and field A, is as it was.
pub patch_list-Patched :
    (fuel : ℕ) (code : List Instruction) (list target : ℤ) (ps : List ℕ)
    → Chain code list ps
    → Distinct ps
    → InReach target ps
    → AreWords code
    → length ps < fuel
    → (code' : List Instruction) × (patch_list fuel code list target ≡ ok code')
      × Patched code target ps code'
unfolding patch_list
patch_list-Patched zero code list target ps c d r w h = absurd (omega arith)
patch_list-Patched (suc fuel) code list target ps ends d r w h = (
  code,
  refl,
  record { size = refl; lands = tt; others = λ q away. refl; fields = λ q. (refl, refl) },
)
patch_list-Patched (suc fuel) code list target (p ∷ ps) (link {next = next} hp e rest) (away, d)
      (near, r) w h =
    let (code₁, f) = fix_jump-Fixed code p target hp w near in
    let (code', run, done) =
      patch_list-Patched fuel code₁ next target ps
        (Chain-others code code₁ p ps f.size f.others away rest) d r f.words (omega arith) in
    (
      code',
      rw (not_end p, get_jump_lem code p hp, e, f.run) run,
      record {
        size = done.size ∙ f.size;
        lands = (rw (done.others p away) f.lands, done.lands);
        others = λ q (ne, out). done.others q out ∙ f.others q ne;
        fields =
            λ q. let (op, a) = done.fields q in let (op₁, a₁) = f.fields q in (op ∙ op₁, a ∙ a₁);
      },
    )

-- The positions as the integers that `collectPatchList` gives.
abbrev pub positions : List ℕ → List ℤ
positions [] = []
positions (p ∷ ps) = pos p ∷ positions ps

-- The positions of a list are collected in its order, with any fuel beyond its length.
pub collect_patch_list-Chain :
    (fuel : ℕ) (code : List Instruction) (list : ℤ) (ps : List ℕ)
    → Chain code list ps
    → length ps < fuel
    → collect_patch_list fuel code list ≡ ok (positions ps)
unfolding collect_patch_list
collect_patch_list-Chain zero code list ps c h = absurd (omega arith)
collect_patch_list-Chain (suc fuel) code list ps ends h = refl
collect_patch_list-Chain (suc fuel) code list (p ∷ ps) (link {next = next} hp e rest) h =
    rw
      (
        not_end p,
        get_jump_lem code p hp,
        e,
        collect_patch_list-Chain fuel code next ps rest (omega arith),
      )
      refl
