-- ===== src/Tests/Numbers.antt =====
-- Natural numbers in place of doubles, for runs: whole numbers, and no NaN.
use lua.Prelude.{ℕ, refl, false, leb, ◌==◌, arith}
use lua.Value.{Doubles}

instance unfoldable pub numbers : Doubles ℕ
numbers = record {
  equal = λ a b. a == b;
  less_eq = λ a b. leb a b;
  floor = λ a. a;
  is_nan = λ a. false;
  of_nat = λ n. n;
  to_i32 = λ a. a;
  hash_double = λ a. a;
  hash_pointer = λ a. a;
  string_hash = λ a. a;
  equal_symm = λ a b. ground arith;
  equal_trans = λ a b c p q. ground arith;
  equal_self = λ a. ground arith;
  less_eq-equal = λ a b c e. (ground arith, ground arith);
  floor-equal = λ a b e. e;
  to_i32-equal = λ a b e. ground arith;
  hash-equal = λ a b e. ground arith;
  whole = λ n low high. (ground arith, ground arith, ground arith, refl);
  to_i32_whole = λ a p w h. (ground arith, ground arith, ground arith);
}
