-- ===== src/Upvalues/Links.antt =====
-- The list of the open upvalues that `next` links (src/vm/state/lua_state.cpp).
use mathlib.Core.List.{Memᴰ}
use mathlib.Core.List.Memᴰ
use lua.Prelude.{
  ℕ, ◌≡◌, ◌≢◌, inl, inr, refl, true, false, List, [], ◌∷◌, Option, none, some, ◌∙◌, ap, sym, subst,
  Bool-cases, arith, ◌==◌, ◌<◌,
}
use lua.Upvalues.Cells.{Upvalue, LuaState, put}

pub put_self {ℓ} : {a : Type ℓ} (f : ℕ → a) (i j : ℕ) (x : a) → i ≡ j → put f i x j ≡ x
put_self f i j x e = let same : (i == j) ≡ true = ground arith in rw same refl

pub put-other {ℓ} : {a : Type ℓ} (f : ℕ → a) (i j : ℕ) (x : a) → i ≢ j → put f i x j ≡ f j
put-other f i j x ne = let other : (i == j) ≡ false = ground arith in rw other refl

-- A part that the new value shares with the old one does not change.
pub put-part {ℓ ℓ'} :
    {a : Type ℓ} {b : Type ℓ'} (g : a → b) (f : ℕ → a) (i j : ℕ) (x : a)
    → g x ≡ g (f i)
    → g (put f i x j) ≡ g (f j)
put-part g f i j x h = elim (Bool-cases (i == j)) [
  | inl e ↦ let same : i ≡ j = ground arith in rw e (h ∙ ap (λ (k : ℕ). g (f k)) same)
  | inr e ↦ rw e refl
]

module _ {ℓ} {v : Type ℓ} where
  -- The links lead from a head through the addresses in turn.
  abbrev pub Linked : (ℕ → Upvalue v) → Option ℕ → List ℕ → Type 0
  Linked m h [] = h ≡ none
  Linked m h (x ∷ xs) = (h ≡ some x) × Linked m (m x).next xs

  -- Each upvalue is for a higher stack index than those after it.
  abbrev pub Descending : (ℕ → Upvalue v) → List ℕ → Type 0
  Descending m [] = Unit
  Descending m (x ∷ xs) =
      ((y : ℕ) → Memᴰ y xs → (m y).stack_index < (m x).stack_index) × Descending m xs

  -- The open upvalues of the state are those of the list.
  pub record OpenList (s : LuaState v) (xs : List ℕ) : Type 0 where
    pub linked : Linked s.memory s.open_upvalues xs
    pub descending : Descending s.memory xs
    pub opened : (u : ℕ) → Memᴰ u xs → (s.memory u).is_open ≡ true

  pub same-Linked :
      (m m' : ℕ → Upvalue v) (h : Option ℕ) (xs : List ℕ)
      → ((u : ℕ) → Memᴰ u xs → (m' u).next ≡ (m u).next)
      → Linked m h xs
      → Linked m' h xs
  same-Linked m m' h [] same l = l
  same-Linked m m' h (x ∷ xs) same l = (
    l.0,
    subst (λ k. Linked m' k xs) (sym (same x (Memᴰ.head refl)))
        (same-Linked m m' (m x).next xs (λ u i. same u (Memᴰ.tail i)) l.1),
  )

  pub same-Descending :
      (m m' : ℕ → Upvalue v) (xs : List ℕ)
      → ((u : ℕ) → Memᴰ u xs → (m' u).stack_index ≡ (m u).stack_index)
      → Descending m xs
      → Descending m' xs
  same-Descending m m' [] same d = tt
  same-Descending m m' (x ∷ xs) same d = (
    λ y i.
        let here = same x (Memᴰ.head refl) in
        let there = same y (Memᴰ.tail i) in let less = d.0 y i in omega (arith, here, there, less),
    same-Descending m m' xs (λ u i. same u (Memᴰ.tail i)) d.1,
  )

  -- The first of a descending list is not among the others.
  pub first_apart :
      (m : ℕ → Upvalue v) (x : ℕ) (xs : List ℕ)
      → Descending m (x ∷ xs)
      → (y : ℕ) → Memᴰ y xs
      → x ≢ y
  first_apart m x xs d y i e =
      let less = d.0 y i in
      let same = ap (λ (k : ℕ). (m k).stack_index) e in omega (arith, less, same)

  -- An index has one upvalue in the list.
  pub unique_index :
      (m : ℕ → Upvalue v) (xs : List ℕ)
      → Descending m xs
      → (a b : ℕ) → Memᴰ a xs
      → Memᴰ b xs
      → (m a).stack_index ≡ (m b).stack_index
      → a ≡ b
  unique_index m [] d a b i j e = absurd (Memᴰ.not-nil i)
  unique_index m (x ∷ xs) d a b i j e = elim (Memᴰ.cases_cons i) [
    | inl p ↦ elim (Memᴰ.cases_cons j) [
      | inl q ↦ p ∙ sym q
      | inr q ↦
          let less = d.0 b q in
          let same = ap (λ (k : ℕ). (m k).stack_index) p in absurd (omega (arith, less, same, e))
    ]
    | inr p ↦ elim (Memᴰ.cases_cons j) [
      | inl q ↦
          let less = d.0 a p in
          let same = ap (λ (k : ℕ). (m k).stack_index) q in absurd (omega (arith, less, same, e))
      | inr q ↦ unique_index m xs d.1 a b p q e
    ]
  ]
