-- ===== src/Prelude/Result.antt =====
-- Results of code that can fail with an error of type `E`, chained by `do`.
use mathlib.Core.Path.{◌≡◌, refl}
use mathlib.Core.Bool.{Bool, true, false}

-- `err` stops the chain with the value that the throw or the failed check leaves.
pub data Result {ℓ} (E : Type 0) (A : Type ℓ) : Type ℓ where
  err : E → Result E A
  ok : A → Result E A

module _ {E : Type 0} where
  infixl 5 ◌>>=◌ ◌>>◌
  abbrev pub ◌>>=◌ {ℓ κ} : {A : Type ℓ} {B : Type κ} → Result E A → (A → Result E B) → Result E B
  err failure >>= next = err failure
  ok value >>= next = next value

  abbrev pub ◌>>◌ {ℓ} : {B : Type ℓ} → Result E (Unit {0}) → Result E B → Result E B
  err failure >> rest = err failure
  ok done >> rest = rest

  -- A test that must hold.
  abbrev pub require : Bool → E → Result E (Unit {0})
  require false failure = err failure
  require true failure = ok tt

  -- The parts of a chain that succeeded.
  pub >>=-eq-ok {ℓ κ} :
      {A : Type ℓ} {B : Type κ} (first : Result E A) (next : A → Result E B) {result : B}
      → (first >>= next) ≡ ok result
      → (value : A) × (first ≡ ok value) × (next value ≡ ok result)
  >>=-eq-ok (err failure) next e = cc
  >>=-eq-ok (ok value) next e = (value, refl, e)

  pub >>-eq-ok {ℓ} :
      {B : Type ℓ} (check : Result E (Unit {0})) (rest : Result E B) {result : B}
      → (check >> rest) ≡ ok result
      → (check ≡ ok tt) × (rest ≡ ok result)
  >>-eq-ok (err failure) rest e = cc
  >>-eq-ok (ok tt) rest e = (refl, e)
