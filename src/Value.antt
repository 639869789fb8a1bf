-- ===== src/Value.antt =====
-- Lua values, their equality and their hash (src/core/value.hpp, table.cpp). The doubles, and the
-- hash functions of the standard library, are an instance; a pointer is its address.
use lua.Prelude.{ℕ, ◌≤◌, ◌≡◌, refl, Bool, true, false, not, ◌==◌, arith}
use lua.Prelude.Int.{i32_max}

-- The type `f64` with the operations that the source uses of it, `std::hash<f64>`,
-- `std::hash<void*>` and the hashes that string objects carry. The laws are those of IEEE 754
-- doubles: `==` is symmetric and transitive, and fails at NaN alone; equal numbers behave alike; a
-- 31-bit whole number has its own double and is read back from it.
pub record Doubles (F : Type 0) : Type 0 where
  pub equal : F → F → Bool
  pub less_eq : F → F → Bool
  pub floor : F → F
  pub is_nan : F → Bool
  pub of_nat : ℕ → F
  pub to_i32 : F → ℕ
  pub hash_double : F → ℕ
  pub hash_pointer : ℕ → ℕ
  pub string_hash : ℕ → ℕ
  pub equal_symm : (a b : F) → equal a b ≡ equal b a
  pub equal_trans : (a b c : F) → equal a b ≡ true → equal b c ≡ true → equal a c ≡ true
  pub equal_self : (a : F) → equal a a ≡ not (is_nan a)
  pub less_eq-equal :
      (a b c : F) → equal a b ≡ true → (less_eq a c ≡ less_eq b c) × (less_eq c a ≡ less_eq c b)
  pub floor-equal : (a b : F) → equal a b ≡ true → equal (floor a) (floor b) ≡ true
  pub to_i32-equal : (a b : F) → equal a b ≡ true → to_i32 a ≡ to_i32 b
  pub hash-equal : (a b : F) → equal a b ≡ true → hash_double a ≡ hash_double b
  pub whole :
      (n : ℕ)
      → 1 ≤ n
      → n ≤ i32_max
      → (less_eq (of_nat n) (of_nat 0) ≡ false)
        × (equal (of_nat n) (floor (of_nat n)) ≡ true)
        × (less_eq (of_nat n) (of_nat i32_max) ≡ true)
        × (to_i32 (of_nat n) ≡ n)
  pub to_i32_whole :
      (a : F)
      → less_eq a (of_nat 0) ≡ false
      → equal a (floor a) ≡ true
      → less_eq a (of_nat i32_max) ≡ true
      → (1 ≤ to_i32 a) × (to_i32 a ≤ i32_max) × (equal a (of_nat (to_i32 a)) ≡ true)

pub data Value (F : Type 0) : Type 0 where
  nil : Value F
  boolean : Bool → Value F
  light_userdata : ℕ → Value F
  number : F → Value F
  string table function userdata thread : ℕ → Value F

bool_eq : Bool → Bool → Bool
bool_eq true b = b
bool_eq false b = not b

module _ {F : Type 0} where
  unfoldable pub is_nil : Value F → Bool
  is_nil nil = true
  is_nil _ = false

  unfoldable pub is_number : Value F → Bool
  is_number (number a) = true
  is_number _ = false

  unfoldable pub is_false : Value F → Bool
  is_false nil = true
  is_false (boolean b) = not b
  is_false _ = false

  pub is_nil-eq : (v : Value F) → is_nil v ≡ true → v ≡ nil
  unfolding is_nil
  is_nil-eq nil e = refl
  is_nil-eq _ e = cc

module _ {F : Type 0} ⦃d : Doubles F⦄ where
  -- `operator==`: the same alternative and equal payloads
  unfoldable pub value_eq : Value F → Value F → Bool
  unfolding bool_eq
  value_eq nil nil = true
  value_eq (boolean a) (boolean b) = bool_eq a b
  value_eq (light_userdata a) (light_userdata b) = a == b
  value_eq (number a) (number b) = d.equal a b
  value_eq (string a) (string b) = a == b
  value_eq (table a) (table b) = a == b
  value_eq (function a) (function b) = a == b
  value_eq (userdata a) (userdata b) = a == b
  value_eq (thread a) (thread b) = a == b
  value_eq _ _ = false

  -- `ValueHash`
  unfoldable pub value_hash : Value F → ℕ
  value_hash nil = 0
  value_hash (boolean true) = 1
  value_hash (boolean false) = 0
  value_hash (number a) = d.hash_double a
  value_hash (light_userdata p) = d.hash_pointer p
  value_hash (string p) = d.string_hash p
  value_hash (table p) = d.hash_pointer p
  value_hash (function p) = d.hash_pointer p
  value_hash (userdata p) = d.hash_pointer p
  value_hash (thread p) = d.hash_pointer p

  -- A key that `set` refuses: nil, or a number that is not equal to itself.
  unfoldable pub is_nan_value : Value F → Bool
  is_nan_value (number a) = d.is_nan a
  is_nan_value _ = false

  pub value_eq_symm : (a b : Value F) → value_eq a b ≡ value_eq b a
  unfolding value_eq
  value_eq_symm nil nil = refl
  value_eq_symm (number a) (number b) = d.equal_symm a b
  value_eq_symm a b = ground arith

  pub value_eq_trans :
      (a b c : Value F) → value_eq a b ≡ true → value_eq b c ≡ true → value_eq a c ≡ true
  unfolding value_eq
  value_eq_trans nil nil nil p q = refl
  value_eq_trans (number a) (number b) (number c) p q = d.equal_trans a b c p q
  value_eq_trans a b c p q = ground arith

  pub value_eq_self : (a : Value F) → value_eq a a ≡ not (is_nan_value a)
  unfolding value_eq is_nan_value
  value_eq_self (number a) = d.equal_self a
  value_eq_self a = ground arith

  pub value_hash-eq : (a b : Value F) → value_eq a b ≡ true → value_hash a ≡ value_hash b
  unfolding value_eq value_hash
  value_hash-eq nil nil e = refl
  value_hash-eq (number a) (number b) e = d.hash-equal a b e
  value_hash-eq a b e = ground arith

  pub value_eq_congr : (a b c : Value F) → value_eq a b ≡ true → value_eq a c ≡ value_eq b c
  value_eq_congr a b c e =
      ground (arith, value_eq_symm a b, value_eq_trans a b c, value_eq_trans b a c)
