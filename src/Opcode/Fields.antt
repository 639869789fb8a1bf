-- ===== src/Opcode/Fields.antt =====
-- The fields of an instruction word as quotients and remainders (src/compiler/opcode.hpp).
use Prim.Native.Nat.{bit_and, bit_or}
use native.Mathlib.Nat.{one-le-pow, mod-eq_of_lt}
use lua.Prelude.{ℕ, ◌∙◌, ◌+◌, ◌-◌, ◌*◌, ◌/◌, ◌%◌, ◌^◌, ◌<◌, ◌≡◌, refl, ap, arith}
use lua.Prelude.Bits.{
  bit_or_parts, bit_and_parts, bit_or_low, bit_and_mask, bit_and-zero, bit_or-zero, zero-bit_or,
}
use lua.Prelude.Int.{ℤ, pos, sub_ℕ, ◌+ℤ◌}
use lua.Opcode.Metadata.{OpCode, to_u8, from_u8}
use lua.Opcode.Instruction.{
  Instruction, get_opcode, getarg_a, getarg_b, getarg_c, getarg_bx, getarg_sbx, create_asbx,
  create_abc, create_abx, to_u32, setarg_a, setarg_b, setarg_c, setarg_sbx, maxarg_sbx, shl,
}

pub get_opcode_lem : (i : Instruction) → get_opcode i ≡ from_u8 (i % 64)
unfolding get_opcode
get_opcode_lem i = rw (bit_and_mask 6 (i / 1)) (ground arith)

pub getarg_a_lem : (i : Instruction) → getarg_a i ≡ i / 64 % 256
unfolding getarg_a
getarg_a_lem i = bit_and_mask 8 (i / 64)

pub getarg_b_lem : (i : Instruction) → getarg_b i ≡ i / 2 ^ 23 % 512
unfolding getarg_b
getarg_b_lem i = bit_and_mask 9 (i / 2 ^ 23)

pub getarg_c_lem : (i : Instruction) → getarg_c i ≡ i / 2 ^ 14 % 512
unfolding getarg_c
getarg_c_lem i = bit_and_mask 9 (i / 2 ^ 14)

pub getarg_bx_lem : (i : Instruction) → getarg_bx i ≡ i / 2 ^ 14 % 2 ^ 18
unfolding getarg_bx
getarg_bx_lem i = bit_and_mask 18 (i / 2 ^ 14)

pub getarg_sbx_lem : (i : Instruction) → getarg_sbx i ≡ sub_ℕ (i / 2 ^ 14 % 2 ^ 18) maxarg_sbx
unfolding getarg_sbx
getarg_sbx_lem i = ap (λ (x : ℕ). sub_ℕ x maxarg_sbx) (getarg_bx_lem i)

-- Two words that agree with fields below and above bit `k`.
or_fields :
    (k x y r q s p u v : ℕ)
    → x ≡ r + q * 2 ^ k
    → y ≡ s + p * 2 ^ k
    → r < 2 ^ k
    → s < 2 ^ k
    → bit_or r s ≡ u
    → bit_or q p ≡ v
    → bit_or x y ≡ u + v * 2 ^ k
or_fields k x y r q s p u v ex ey hr hs eu ev = rw (ex, ey, bit_or_parts k r q s p, eu, ev)

and_fields :
    (k x y r q s p u v : ℕ)
    → x ≡ r + q * 2 ^ k
    → y ≡ s + p * 2 ^ k
    → r < 2 ^ k
    → s < 2 ^ k
    → bit_and r s ≡ u
    → bit_and q p ≡ v
    → bit_and x y ≡ u + v * 2 ^ k
and_fields k x y r q s p u v ex ey hr hs eu ev = rw (ex, ey, bit_and_parts k r q s p, eu, ev)

module _ (o : OpCode) (a : ℕ) (ho : to_u8 o < 64) (ha : a < 256) where
  low_fields : bit_or (shl (to_u8 o) 0) (shl a 6) ≡ to_u8 o + a * 64
  low_fields = ground (arith, bit_or_low 6 (to_u8 o) a)

  pub create_abx_lem : (bx : ℕ) → bx < 2 ^ 18 → create_abx o a bx ≡ to_u8 o + a * 64 + bx * 2 ^ 14
  unfolding create_abx
  create_abx_lem bx h = rw low_fields (ground (arith, bit_or_low 14 (to_u8 o + a * 64) bx))

  pub create_asbx_lem :
      (n : ℤ) (x : ℕ)
      → n +ℤ pos maxarg_sbx ≡ pos x
      → x < 2 ^ 18
      → create_asbx o a n ≡ to_u8 o + a * 64 + x * 2 ^ 14
  unfolding create_asbx
  create_asbx_lem n x e h =
      let word : to_u32 (pos x) ≡ x = omega arith in rw (e, word) (create_abx_lem x h)

  pub create_abc_lem :
      (b c : ℕ)
      → b < 512
      → c < 512
      → create_abc o a b c ≡ to_u8 o + a * 64 + c * 2 ^ 14 + b * 2 ^ 23
  unfolding create_abc
  create_abc_lem b c hb hc =
      let high : bit_or (b * 2 ^ 9) c ≡ c + b * 2 ^ 9 =
        or_fields 9 (b * 2 ^ 9) c 0 b c 0 c b (omega arith) (omega arith) (omega arith) hc
          (zero-bit_or c) (bit_or-zero b) in
      let upper : bit_or (to_u8 o + a * 64) (shl b 23) ≡ to_u8 o + a * 64 + b * 2 ^ 9 * 2 ^ 14 =
        or_fields 14 _ _ (to_u8 o + a * 64) 0 0 (b * 2 ^ 9) _ _ (omega arith) (omega arith)
          (omega arith) (omega arith) (bit_or-zero (to_u8 o + a * 64)) (zero-bit_or (b * 2 ^ 9)) in
      let all =
        or_fields 14 (to_u8 o + a * 64 + b * 2 ^ 9 * 2 ^ 14) (shl c 14) (to_u8 o + a * 64)
          (b * 2 ^ 9) 0 c _ _ refl (omega arith) (omega arith) (omega arith)
          (bit_or-zero (to_u8 o + a * 64)) high in
      rw (low_fields, upper, all) (omega arith)

module _ (p n : ℕ) where
  -- A mask with a hole of `n` bits at bit `p` clears that field.
  clear_field :
      (h i : ℕ)
      → bit_and i (2 ^ p - 1 + (2 ^ h - 1) * 2 ^ n * 2 ^ p)
        ≡ i % 2 ^ p + i / 2 ^ p / 2 ^ n % 2 ^ h * 2 ^ n * 2 ^ p
  clear_field h i =
      let one = one-le-pow p 2 in
      let onen = one-le-pow n 2 in
      let j : ℕ = i / 2 ^ p in
      let upper : bit_and j ((2 ^ h - 1) * 2 ^ n) ≡ j / 2 ^ n % 2 ^ h * 2 ^ n =
        and_fields n j ((2 ^ h - 1) * 2 ^ n) (j % 2 ^ n) (j / 2 ^ n) 0 (2 ^ h - 1) 0 _ (grind arith)
          (omega arith) (grind arith) (omega arith) (bit_and-zero _) (bit_and_mask h (j / 2 ^ n))
        ∙ omega arith in
      and_fields p i _ (i % 2 ^ p) j (2 ^ p - 1) ((2 ^ h - 1) * 2 ^ n) _ _ (grind arith) refl
        (grind arith) (omega arith) (bit_and_mask p (i % 2 ^ p) ∙ mod-eq_of_lt (grind arith)) upper

  -- A mask of `n` bits at bit `p` keeps that field of a word shifted there.
  keep_field : (x : ℕ) → bit_and (x * 2 ^ p) ((2 ^ n - 1) * 2 ^ p) ≡ x % 2 ^ n * 2 ^ p
  keep_field x =
      let one = one-le-pow p 2 in
      and_fields p _ _ 0 x 0 (2 ^ n - 1) 0 _ (omega arith) (omega arith) (omega arith) (omega arith)
        (bit_and-zero 0) (bit_and_mask n x)
      ∙ omega arith

  merge_field :
      (r u x : ℕ)
      → r < 2 ^ p
      → x < 2 ^ n
      → bit_or (r + u * 2 ^ n * 2 ^ p) (x * 2 ^ p) ≡ r + (x + u * 2 ^ n) * 2 ^ p
  merge_field r u x hr hx =
      let one = one-le-pow p 2 in
      let onen = one-le-pow n 2 in
      let upper : bit_or (u * 2 ^ n) x ≡ x + u * 2 ^ n =
        or_fields n _ x 0 u x 0 _ _ (omega arith) (omega arith) (omega arith) hx (zero-bit_or x)
          (bit_or-zero u) in
      or_fields p _ _ r (u * 2 ^ n) 0 x _ _ refl (omega arith) hr (omega arith) (bit_or-zero r)
        upper

  -- What a setter does to a word: the bits below, the new field, the bits above.
  set_field :
      (h i x : ℕ)
      → x < 2 ^ n
      → bit_or
          (bit_and i (2 ^ p - 1 + (2 ^ h - 1) * 2 ^ n * 2 ^ p))
          (bit_and (x * 2 ^ p) ((2 ^ n - 1) * 2 ^ p))
        ≡ i % 2 ^ p + (x + i / 2 ^ p / 2 ^ n % 2 ^ h * 2 ^ n) * 2 ^ p
  set_field h i x hx =
      let one = one-le-pow p 2 in
      rw (clear_field h i, keep_field x, mod-eq_of_lt hx)
        (merge_field (i % 2 ^ p) (i / 2 ^ p / 2 ^ n % 2 ^ h) x (grind arith) hx)

module _ (i : Instruction) (hi : i < 2 ^ 32) where
  pub setarg_a_lem : (a : ℕ) → a < 256 → setarg_a i a ≡ i % 64 + a * 64 + i / 2 ^ 14 * 2 ^ 14
  unfolding setarg_a
  setarg_a_lem a ha =
      let word : shl a 6 ≡ a * 64 = omega arith in rw word (set_field 6 8 18 i a ha ∙ omega arith)

  pub setarg_b_lem : (b : ℕ) → b < 512 → setarg_b i b ≡ i % 2 ^ 23 + b * 2 ^ 23
  unfolding setarg_b
  setarg_b_lem b hb =
      let word : shl b 23 ≡ b * 2 ^ 23 = omega arith in
      rw word (set_field 23 9 0 i b hb ∙ omega arith)

  pub setarg_c_lem :
      (c : ℕ) → c < 512 → setarg_c i c ≡ i % 2 ^ 14 + c * 2 ^ 14 + i / 2 ^ 23 * 2 ^ 23
  unfolding setarg_c
  setarg_c_lem c hc =
      let word : shl c 14 ≡ c * 2 ^ 14 = omega arith in
      rw word (set_field 14 9 9 i c hc ∙ omega arith)

  -- The offset is stored with the bias added.
  pub setarg_sbx_lem :
      (n : ℤ) (x : ℕ)
      → n +ℤ pos maxarg_sbx ≡ pos x
      → x < 2 ^ 18
      → setarg_sbx i n ≡ i % 2 ^ 14 + x * 2 ^ 14
  unfolding setarg_sbx ◌+ℤ◌
  setarg_sbx_lem n x e hx =
      let word : shl (to_u32 (pos x)) 14 ≡ x * 2 ^ 14 = omega arith in
      rw (e, word) (set_field 14 18 0 i x hx ∙ omega arith)
