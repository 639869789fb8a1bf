-- ===== src/Upvalues/Insertion.antt =====
-- A new upvalue in the list of the open ones (src/vm/state/lua_state.cpp).
use mathlib.Core.List.{Memᴰ}
use mathlib.Core.List.Memᴰ
use lua.Prelude.{
  ◌⊎◌, inl, inr, ℕ, ◌≡◌, ◌≢◌, refl, List, [], ◌∷◌, ◌++◌, Option, some, ◌∙◌, ap, sym, subst, arith,
  ◌<◌,
}
use lua.Upvalues.Cells.{Upvalue}
use lua.Upvalues.Links.{Linked, Descending, same-Linked, same-Descending, first_apart}
use lua.Upvalues.Finding.{head_of, last_of}

unfoldable pub last : ℕ → List ℕ → ℕ
last x [] = x
last x (y ∷ ys) = last y ys

pub Mem-last : (x : ℕ) (ys : List ℕ) → Memᴰ (last x ys) (x ∷ ys)
unfolding last
Mem-last x [] = Memᴰ.head refl
Mem-last x (y ∷ ys) = Memᴰ.tail (Mem-last y ys)

pub last_of_lem : (prev : Option ℕ) (x : ℕ) (ys : List ℕ) → last_of prev (x ∷ ys) ≡ some (last x ys)
unfolding last
last_of_lem prev x [] = refl
last_of_lem prev x (y ∷ ys) = last_of_lem (some x) y ys

pub middle_cases :
    (fresh w : ℕ) (before after : List ℕ)
    → Memᴰ w (before ++ fresh ∷ after)
    → Memᴰ w (before ++ after) ⊎ (w ≡ fresh)
middle_cases fresh w before after i = elim (Memᴰ.append_cases before i) [
  | inl j ↦ inl (Memᴰ.append_left after j)
  | inr j ↦ elim (Memᴰ.cases_cons j) [ inl e ↦ inr e | inr k ↦ inl (Memᴰ.append_right before k) ]
]

pub middle_kept :
    (fresh w : ℕ) (before after : List ℕ)
    → Memᴰ w (before ++ after)
    → Memᴰ w (before ++ fresh ∷ after)
middle_kept fresh w before after i = elim (Memᴰ.append_cases before i) [
  | inl j ↦ Memᴰ.append_left (fresh ∷ after) j
  | inr j ↦ Memᴰ.append_right before (Memᴰ.tail j)
]

module _ {ℓ} {v : Type ℓ} where
  Linked-head : (m : ℕ → Upvalue v) (h : Option ℕ) (xs : List ℕ) → Linked m h xs → h ≡ head_of xs
  Linked-head m h [] l = l
  Linked-head m h (x ∷ xs) l = l.0

  -- The new links run through the new upvalue, between the last one before it and the rest.
  pub record Relinked (fresh q : ℕ) (after : List ℕ) (m m' : ℕ → Upvalue v) : Type 0 where
    pub at_last : (m' q).next ≡ some fresh
    pub at_fresh : (m' fresh).next ≡ head_of after
    pub elsewhere : (w : ℕ) → fresh ≢ w → q ≢ w → (m' w).next ≡ (m w).next

  pub head-Linked :
      (m m' : ℕ → Upvalue v) (h : Option ℕ) (fresh : ℕ) (after : List ℕ)
      → Linked m h after
      → (m' fresh).next ≡ head_of after
      → ((w : ℕ) → Memᴰ w after → (m' w).next ≡ (m w).next)
      → Linked m' (some fresh) (fresh ∷ after)
  head-Linked m m' h fresh after l e same = (
    refl,
    subst (λ k. Linked m' k after) (Linked-head m h after l ∙ sym e)
        (same-Linked m m' h after same l),
  )

  pub Relinked-Linked :
      (fresh x : ℕ) (before after : List ℕ) (m m' : ℕ → Upvalue v) (h : Option ℕ)
      → Linked m h (x ∷ before ++ after)
      → Descending m (x ∷ before ++ after)
      → ¬ Memᴰ fresh (x ∷ before ++ after)
      → Relinked fresh (last x before) after m m'
      → Linked m' h (x ∷ before ++ fresh ∷ after)
  unfolding last
  Relinked-Linked fresh x [] after m m' h l d new r = (
    l.0,
    subst (λ k. Linked m' k (fresh ∷ after)) (sym r.at_last)
        (head-Linked m m' (m x).next fresh after l.1 r.at_fresh (λ w i.
          r.elsewhere w (λ e. new (Memᴰ.tail (subst (λ k. Memᴰ k after) (sym e) i)))
            (first_apart m x after d w i))),
  )
  Relinked-Linked fresh x (y ∷ before) after m m' h l d new r =
      let tail_last = Memᴰ.append_left after (Mem-last y before) in
      let same =
        r.elsewhere x (λ e. new (Memᴰ.head e))
          (λ e. first_apart m x (y ∷ before ++ after) d (last y before) tail_last (sym e)) in
      (
        l.0,
        subst (λ k. Linked m' k (y ∷ before ++ fresh ∷ after)) (sym same)
            (Relinked-Linked fresh y before after m m' (m x).next l.1 d.1 (λ i. new (Memᴰ.tail i))
              r),
      )

  -- A new index between those above it and those below it keeps the order.
  pub insert-Descending :
      (fresh i : ℕ) (before after : List ℕ) (m m' : ℕ → Upvalue v)
      → Descending m (before ++ after)
      → ((w : ℕ) → Memᴰ w before → i < (m w).stack_index)
      → ((w : ℕ) → Memᴰ w after → (m w).stack_index < i)
      → ((w : ℕ) → fresh ≢ w → (m' w).stack_index ≡ (m w).stack_index)
      → (m' fresh).stack_index ≡ i
      → ¬ Memᴰ fresh (before ++ after)
      → Descending m' (before ++ fresh ∷ after)
  insert-Descending fresh i [] after m m' d above below same here new =
      let apart : (w : ℕ) → Memᴰ w after → fresh ≢ w =
        λ w j e. new (subst (λ k. Memᴰ k after) (sym e) j) in
      (
        λ w j. let e = same w (apart w j) in let less = below w j in omega (arith, e, less, here),
        same-Descending m m' after (λ w j. same w (apart w j)) d,
      )
  insert-Descending fresh i (x ∷ before) after m m' d above below same here new =
      let e = same x (λ e. new (Memᴰ.head e)) in
      (
        λ w j. elim (Memᴰ.append_cases before j) [
          | inl j' ↦
              let less = d.0 w (Memᴰ.append_left after j') in
              let e' = same w (λ k. new (
                Memᴰ.tail
                  (subst (λ n. Memᴰ n (before ++ after)) (sym k) (Memᴰ.append_left after j')))) in
              omega (arith, e, e', less)
          | inr j' ↦ elim (Memᴰ.cases_cons j') [
            | inl k ↦
                let high = above x (Memᴰ.head refl) in
                let there = ap (λ (n : ℕ). (m' n).stack_index) k in
                omega (arith, e, high, there, here)
            | inr k ↦
                let high = above x (Memᴰ.head refl) in
                let low = below w k in
                let e' = same w (λ n. new (
                  Memᴰ.tail (
                    subst (λ n. Memᴰ n (before ++ after)) (sym n) (Memᴰ.append_right before k)))) in
                omega (arith, e, e', high, low)
          ]
        ],
        insert-Descending fresh i before after m m' d.1 (λ w j. above w (Memᴰ.tail j)) below same
            here (λ j. new (Memᴰ.tail j)),
      )
