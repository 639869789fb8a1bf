-- ===== src/Upvalues/Finding.antt =====
-- `findOrCreateUpvalue` (src/vm/state/lua_state.cpp).
use mathlib.Core.List.{Memᴰ}
use mathlib.Core.List.Memᴰ
use lua.Prelude.{
  ℕ, zero, suc, ◌≡◌, inl, inr, refl, Bool, true, false, List, [], ◌∷◌, ◌++◌, Option, none, some,
  ◌∙◌, ap, sym, subst, Bool-cases, arith, ◌≤◌, ◌<◌, ltb, length, if◌then◌else◌,
}
use lua.Upvalues.Cells.{Upvalue, find_from}
use lua.Upvalues.Links.{Linked, Descending}

abbrev pub head_of : List ℕ → Option ℕ
head_of [] = none
head_of (x ∷ xs) = some x

abbrev pub last_of : Option ℕ → List ℕ → Option ℕ
last_of prev [] = prev
last_of prev (x ∷ xs) = last_of (some x) xs

module _ {ℓ} {v : Type ℓ} where
  -- A list is cut at an index: what stands before the cut is above it, the rest is not.
  pub record Cut (m : ℕ → Upvalue v) (i : ℕ) (before after xs : List ℕ) : Type 0 where
    pub whole : xs ≡ before ++ after
    pub above : (w : ℕ) → Memᴰ w before → i < (m w).stack_index
    pub rest : (w : ℕ) → Memᴰ w after → (m w).stack_index ≤ i

  search_on :
      (fuel : ℕ) (m : ℕ → Upvalue v) (i x : ℕ) (prev : Option ℕ)
      → ltb i (m x).stack_index ≡ true
      → find_from (suc fuel) m i prev (some x) ≡ find_from fuel m i (some x) (m x).next
  unfolding find_from
  search_on fuel m i x prev e =
      ap (λ (b : Bool). if b then find_from fuel m i (some x) (m x).next else some (prev, some x)) e

  search_ends :
      (fuel : ℕ) (m : ℕ → Upvalue v) (i x : ℕ) (prev : Option ℕ)
      → ltb i (m x).stack_index ≡ false
      → find_from (suc fuel) m i prev (some x) ≡ some (prev, some x)
  unfolding find_from
  search_ends fuel m i x prev e =
      ap (λ (b : Bool). if b then find_from fuel m i (some x) (m x).next else some (prev, some x)) e

  -- The search gives the last upvalue above the index and the one after it.
  pub find_from-Cut :
      (fuel : ℕ) (m : ℕ → Upvalue v) (i : ℕ) (prev curr : Option ℕ) (xs : List ℕ)
      → Linked m curr xs
      → Descending m xs
      → length xs < fuel
      → (before : List ℕ) × (after : List ℕ) × Cut m i before after xs
        × (find_from fuel m i prev curr ≡ some (last_of prev before, head_of after))
  unfolding find_from
  find_from-Cut zero m i prev curr xs l d enough = absurd (omega arith)
  find_from-Cut (suc fuel) m i prev curr [] l d enough = (
    [],
    [],
    record {
      whole = refl;
      above = λ w j. absurd (Memᴰ.not-nil j);
      rest = λ w j. absurd (Memᴰ.not-nil j);
    },
    ap (find_from (suc fuel) m i prev) l,
  )
  find_from-Cut (suc fuel) m i prev curr (x ∷ xs) l d enough =
      elim (Bool-cases (ltb i (m x).stack_index)) [
        | inl e ↦
            let (before, after, c, done) =
              find_from-Cut fuel m i (some x) (m x).next xs l.1 d.1 (omega arith) in
            (
              x ∷ before,
              after,
              record {
                whole = ap (λ ys. x ∷ ys) c.whole;
                above = λ w j. elim (Memᴰ.cases_cons j) [
                  | inl e' ↦ subst (λ (k : ℕ). i < (m k).stack_index) (sym e') (ground arith)
                  | inr j' ↦ c.above w j'
                ];
                rest = c.rest;
              },
              ap (find_from (suc fuel) m i prev) l.0 ∙ search_on fuel m i x prev e ∙ done,
            )
        | inr e ↦
            let low : (m x).stack_index ≤ i = ground arith in
            (
              [],
              x ∷ xs,
              record {
                whole = refl;
                above = λ w j. absurd (Memᴰ.not-nil j);
                rest = λ w j. elim (Memᴰ.cases_cons j) [
                  | inl e' ↦ subst (λ (k : ℕ). (m k).stack_index ≤ i) (sym e') low
                  | inr j' ↦ let less = d.0 w j' in omega (arith, less, low)
                ];
              },
              ap (find_from (suc fuel) m i prev) l.0 ∙ search_ends fuel m i x prev e,
            )
      ]
