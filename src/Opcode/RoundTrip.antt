-- ===== src/Opcode/RoundTrip.antt =====
-- The laws of packing and unpacking, of operation codes and of constant operands
-- (src/compiler/opcode.hpp).
use Prim.Native.Nat.{bit_or}
use lua.Prelude.{
  ℕ, zero, suc, ◌∙◌, ◌+◌, ◌-◌, ◌/◌, ◌%◌, ◌^◌, ◌≤◌, ◌<◌, ◌≡◌, ◌≢◌, refl, ap, sym, subst, arith, true,
  false, get_or, List, [], ◌∷◌,
}
use lua.Prelude.Bits.{bit_or_low, bit_and_parts, bit_and-zero, bit_and_mask}
use lua.Prelude.Int.{ℤ, pos, negsuc, ◌+ℤ◌, ◌≤ℤ◌, sub_ℕ}
use lua.Opcode.Metadata
use lua.Opcode.Metadata.{OpCode, to_u8, from_u8, opcode_metadata, unnamed, op_codes, move}
use lua.Opcode.Instruction.{
  Instruction, get_opcode, getarg_a, getarg_b, getarg_c, getarg_sbx, create_abc, create_asbx,
  setarg_a, setarg_b, setarg_c, setarg_sbx, isk, indexk, rkask, maxarg_sbx,
}
use lua.Opcode.Fields.{
  get_opcode_lem, getarg_a_lem, getarg_b_lem, getarg_c_lem, create_abc_lem, create_asbx_lem,
  getarg_sbx_lem, setarg_a_lem, setarg_b_lem, setarg_c_lem, setarg_sbx_lem,
}

-- An enumerator of the source.
abbrev pub IsNamed : OpCode → Type 0
IsNamed (unnamed n) = ⊥
IsNamed _ = Unit

to_u8-lt : (o : OpCode) → IsNamed o → to_u8 o < 38
unfolding to_u8
to_u8-lt move h = omega arith
to_u8-lt (unnamed n) h = elim h [ ]
to_u8-lt _ h = omega arith

from_u8-to_u8 : (o : OpCode) → IsNamed o → from_u8 (to_u8 o) ≡ o
unfolding to_u8 from_u8
from_u8-to_u8 move h = refl
from_u8-to_u8 (unnamed n) h = elim h [ ]
from_u8-to_u8 _ h = refl

-- `os` are the operation codes from number `k` on.
abbrev AreFrom : List OpCode → ℕ → Type 0
AreFrom [] k = Unit
AreFrom (o ∷ os) k = (to_u8 o ≡ k) × AreFrom os (suc k)

to_u8-get_or :
    (os : List OpCode) (k n : ℕ) → AreFrom os k → to_u8 (get_or os n (unnamed (k + n))) ≡ k + n
unfolding to_u8
to_u8-get_or [] k n h = refl
to_u8-get_or (o ∷ os) k zero h = h.0 ∙ omega arith
to_u8-get_or (o ∷ os) k (suc n) h =
    let e : k + suc n ≡ suc k + n = omega arith in rw e (to_u8-get_or os (suc k) n h.1)

-- The cast keeps every value, also one that no enumerator names.
to_u8-from_u8 : (n : ℕ) → to_u8 (from_u8 n) ≡ n
unfolding from_u8 to_u8
to_u8-from_u8 n =
    let e : 0 + n ≡ n = omega arith in
    subst (λ (k : ℕ). to_u8 (get_or op_codes n (unnamed k)) ≡ k) e
      (to_u8-get_or op_codes 0 n (omega arith))

-- Unpacking a packed three-operand word gives back the operation code and each operand, if the
-- operands fit their fields.
pub fields-create_abc :
    (o : OpCode) (a b c : ℕ)
    → IsNamed o
    → a ≤ 255
    → b ≤ 511
    → c ≤ 511
    → let i = create_abc o a b c in
      (get_opcode i ≡ o) × (getarg_a i ≡ a) × (getarg_b i ≡ b) × (getarg_c i ≡ c)
fields-create_abc o a b c ho ha hb hc =
    let small = to_u8-lt o ho in
    let e = create_abc_lem o a (omega arith) (omega arith) b c (omega arith) (omega arith) in
    let i = create_abc o a b c in
    let low : i % 64 ≡ to_u8 o = omega arith in
    (
      get_opcode_lem i ∙ ap from_u8 low ∙ from_u8-to_u8 o ho,
      getarg_a_lem i ∙ omega arith,
      getarg_b_lem i ∙ omega arith,
      getarg_c_lem i ∙ omega arith,
    )

-- Packing the fields of a word gives back the word: no bit is outside the four fields.
pub create_abc-fields :
    (i : Instruction)
    → i < 2 ^ 32
    → create_abc (get_opcode i) (getarg_a i) (getarg_b i) (getarg_c i) ≡ i
create_abc-fields i h =
    let op : to_u8 (get_opcode i) ≡ i % 64 = ap to_u8 (get_opcode_lem i) ∙ to_u8-from_u8 (i % 64) in
    let ea = getarg_a_lem i in
    let eb = getarg_b_lem i in
    let ec = getarg_c_lem i in
    create_abc_lem (get_opcode i) (getarg_a i) (omega arith) (omega arith) (getarg_b i) (getarg_c i)
      (omega arith) (omega arith)
    ∙ omega arith

-- An offset within the range of the signed field.
abbrev pub FitsSbx : ℤ → Type 0
FitsSbx n = (negsuc (maxarg_sbx - 1) ≤ℤ n) × (n ≤ℤ pos (maxarg_sbx + 1))

biased :
    (n : ℤ)
    → FitsSbx n
    → (x : ℕ) × (n +ℤ pos maxarg_sbx ≡ pos x) × (x < 2 ^ 18) × (sub_ℕ x maxarg_sbx ≡ n)
unfolding ◌+ℤ◌
biased (pos n) (lo, hi) = (n + maxarg_sbx, ground arith, omega arith, ground arith)
biased (negsuc n) (lo, hi) = (maxarg_sbx - suc n, ground arith, omega arith, ground arith)

-- A jump's offset survives packing over the whole signed range, with the operation code and A.
pub fields-create_asbx :
    (o : OpCode) (a : ℕ) (n : ℤ)
    → IsNamed o
    → a ≤ 255
    → FitsSbx n
    → let i = create_asbx o a n in (get_opcode i ≡ o) × (getarg_a i ≡ a) × (getarg_sbx i ≡ n)
fields-create_asbx o a n ho ha fits =
    let small = to_u8-lt o ho in
    let (x, e, hx, back) = biased n fits in
    let word = create_asbx_lem o a (omega arith) (omega arith) n x e hx in
    let i = create_asbx o a n in
    let low : i % 64 ≡ to_u8 o = omega arith in
    let field : i / 2 ^ 14 % 2 ^ 18 ≡ x = omega arith in
    (
      get_opcode_lem i ∙ ap from_u8 low ∙ from_u8-to_u8 o ho,
      getarg_a_lem i ∙ omega arith,
      getarg_sbx_lem i ∙ ap (λ (y : ℕ). sub_ℕ y maxarg_sbx) field ∙ back,
    )

-- Writing an offset into a word stores that offset and changes no other field.
pub fields-setarg_sbx :
    (i : Instruction) (n : ℤ)
    → i < 2 ^ 32
    → FitsSbx n
    → let j = setarg_sbx i n in
      (getarg_sbx j ≡ n) × (get_opcode j ≡ get_opcode i) × (getarg_a j ≡ getarg_a i) × (j < 2 ^ 32)
fields-setarg_sbx i n h fits =
    let (x, e, hx, back) = biased n fits in
    let word = setarg_sbx_lem i h n x e hx in
    let j = setarg_sbx i n in
    let low : j % 64 ≡ i % 64 = omega arith in
    let field : j / 2 ^ 14 % 2 ^ 18 ≡ x = omega arith in
    (
      getarg_sbx_lem j ∙ ap (λ (y : ℕ). sub_ℕ y maxarg_sbx) field ∙ back,
      get_opcode_lem j ∙ ap from_u8 low ∙ sym (get_opcode_lem i),
      getarg_a_lem j ∙ (omega arith ∙ sym (getarg_a_lem i)),
      omega arith,
    )

-- Each setter of a three-operand word stores its operand and leaves the other fields alone.
pub fields-setarg :
    (i : Instruction) (a b c : ℕ)
    → i < 2 ^ 32
    → a ≤ 255
    → b ≤ 511
    → c ≤ 511
    → (setarg_a i a ≡ create_abc (get_opcode i) a (getarg_b i) (getarg_c i))
      × (setarg_b i b ≡ create_abc (get_opcode i) (getarg_a i) b (getarg_c i))
      × (setarg_c i c ≡ create_abc (get_opcode i) (getarg_a i) (getarg_b i) c)
fields-setarg i a b c h ha hb hc =
    let op : to_u8 (get_opcode i) ≡ i % 64 = ap to_u8 (get_opcode_lem i) ∙ to_u8-from_u8 (i % 64) in
    let ea = getarg_a_lem i in
    let eb = getarg_b_lem i in
    let ec = getarg_c_lem i in
    let o = get_opcode i in
    let pack = create_abc_lem o in
    (
      omega (
        arith,
        setarg_a_lem i h a (omega arith),
        pack a (omega arith) (omega arith) (getarg_b i) (getarg_c i) (omega arith) (omega arith),
      ),
      omega (
        arith,
        setarg_b_lem i h b (omega arith),
        pack (getarg_a i) (omega arith) (omega arith) b (getarg_c i) (omega arith) (omega arith),
      ),
      omega (
        arith,
        setarg_c_lem i h c (omega arith),
        pack (getarg_a i) (omega arith) (omega arith) (getarg_b i) c (omega arith) (omega arith),
      ),
    )

-- A register operand is no constant; a constant index up to 255 is, and is read back unchanged.
indexk-rkask : (x : ℕ) → x ≤ 255 → (isk x ≡ false) × (isk (rkask x) ≡ true) × (indexk (rkask x) ≡ x)
unfolding isk rkask indexk
indexk-rkask x h =
    let none = bit_and-zero x in
    let bare = bit_and_parts 8 x 0 0 1 (omega arith) (omega arith) in
    let marked = bit_and_parts 8 x 1 0 1 (omega arith) (omega arith) in
    let index = bit_and_parts 8 x 1 255 0xfffffe (omega arith) (omega arith) in
    let kept = bit_and_mask 8 x in
    let word : bit_or x 256 ≡ x + 256 = bit_or_low 8 x 1 (omega arith) in
    (ground arith, rw word (ground arith), rw word (ground arith))

-- The table of properties is in the order of the enum: the entry found for an enumerator is its
-- own, and it is in a group.
opcode_metadata_lem :
    (o : OpCode)
    → IsNamed o
    → ((opcode_metadata o).opcode ≡ o) × ((opcode_metadata o).group ≢ Metadata.in_unknown)
unfolding opcode_metadata to_u8
opcode_metadata_lem move h = (refl, λ e. cc)
opcode_metadata_lem (unnamed n) h = elim h [ ]
opcode_metadata_lem _ h = (refl, λ e. cc)
