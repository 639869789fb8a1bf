-- ===== src/Gc/Queue.antt =====
-- The gray list: how `propagateMarks` takes an entry out of it (src/gc/gc_mark.cpp).
use mathlib.Core.List.{Memᴰ}
use mathlib.Core.List.Memᴰ
use lua.Prelude.{
  ℕ, suc, ◌-◌, ◌≡◌, ◌⊎◌, ◌↔◌, inl, inr, refl, List, [], ◌∷◌, ◌++◌, ◌∙◌, sym, subst, arith, length,
  get_or, set, take, take-suc, take_beyond, length-take, length-set,
}
use native.Mathlib.Numerals.{unary_clauses}
use lua.Gc.Marking.{drop_at}

drop_at-cons :
    (y z : ℕ) (rest : List ℕ) (i : ℕ) → drop_at (y ∷ z ∷ rest) (suc i) ≡ y ∷ drop_at (z ∷ rest) i
unfolding drop_at
drop_at-cons y z rest i = simp unary_clauses refl

-- Removing the first entry brings the last one to the front.
drop_at-head :
    (x y : ℕ) (rest : List ℕ)
    → drop_at (x ∷ y ∷ rest) 0 ≡ get_or (y ∷ rest) (length rest) 0 ∷ take (length rest) (y ∷ rest)
unfolding drop_at
drop_at-head x y rest = simp unary_clauses refl

pub last-split :
    (y : ℕ) (rest : List ℕ)
    → y ∷ rest ≡ take (length rest) (y ∷ rest) ++ get_or (y ∷ rest) (length rest) 0 ∷ []
last-split y rest =
    sym (take_beyond (suc (length rest)) (y ∷ rest) (omega arith))
    ∙ take-suc (length rest) (y ∷ rest) 0 (omega arith)

lifted :
    (z b : ℕ) (xs before behind : List ℕ)
    → Memᴰ b xs ↔ (Memᴰ b before ⊎ Memᴰ b behind)
    → Memᴰ b (z ∷ xs) ↔ (Memᴰ b (z ∷ before) ⊎ Memᴰ b behind)
lifted z b xs before behind h = (
  λ i. elim (Memᴰ.cases_cons i) [
    | inl e ↦ inl (Memᴰ.head e)
    | inr j ↦ elim (h.0 j) [ inl k ↦ inl (Memᴰ.tail k) | inr k ↦ inr k ]
  ],
  λ i. elim i [
    | inl j ↦ elim (Memᴰ.cases_cons j) [ inl e ↦ Memᴰ.head e | inr k ↦ Memᴰ.tail (h.1 (inl k)) ]
    | inr j ↦ Memᴰ.tail (h.1 (inr j))
  ],
)

-- A rotation keeps the entries.
rotated : (x b : ℕ) (xs : List ℕ) → Memᴰ b (x ∷ xs) ↔ Memᴰ b (xs ++ x ∷ [])
rotated x b xs = (
  λ i. elim (Memᴰ.cases_cons i) [
    | inl e ↦ Memᴰ.append_right xs (Memᴰ.head e)
    | inr j ↦ Memᴰ.append_left (x ∷ []) j
  ],
  λ i. elim (Memᴰ.append_cases xs i) [
    | inl j ↦ Memᴰ.tail j
    | inr j ↦ Memᴰ.head (Memᴰ.eq_of_singleton j)
  ],
)

-- The entries that are left are those before the removed one and those behind it.
pub Mem-drop_at :
    (before : List ℕ) (x : ℕ) (behind : List ℕ) (b : ℕ)
    → Memᴰ b (drop_at (before ++ x ∷ behind) (length before)) ↔ (Memᴰ b before ⊎ Memᴰ b behind)
unfolding drop_at
Mem-drop_at [] x [] b = (λ i. absurd (Memᴰ.not-nil i), λ i. elim i [ inl j ↦ j | inr j ↦ j ])
Mem-drop_at [] x (y ∷ rest) b =
    let last = get_or (y ∷ rest) (length rest) 0 in
    let same = rotated last b (take (length rest) (y ∷ rest)) in
    rw (drop_at-head x y rest) (
      λ i. inr (subst (λ (xs : List ℕ). Memᴰ b xs) (sym (last-split y rest)) (same.0 i)),
      λ i. elim i [
        | inl j ↦ absurd (Memᴰ.not-nil j)
        | inr j ↦ same.1 (subst (λ (xs : List ℕ). Memᴰ b xs) (last-split y rest) j)
      ],
    )
Mem-drop_at (z ∷ []) x behind b =
    rw (drop_at-cons z x behind 0) (lifted z b _ [] behind (Mem-drop_at [] x behind b))
Mem-drop_at (z ∷ z' ∷ before) x behind b =
    rw (drop_at-cons z z' (before ++ x ∷ behind) (length (z' ∷ before)))
      (lifted z b _ (z' ∷ before) behind (Mem-drop_at (z' ∷ before) x behind b))

pub length-drop_at : (xs : List ℕ) (i : ℕ) → length (drop_at xs i) ≡ length xs - 1
unfolding drop_at
length-drop_at xs i =
    let last = get_or xs (length xs - 1) 0 in
    length-take (length xs - 1) (set xs i last) (omega (arith, length-set xs i last))
