-- ===== src/Gc/Tricolor.antt =====
-- The tri-colour invariant of the collector (src/gc/gc_mark.cpp).
use mathlib.Core.List.{Memᴰ}
use mathlib.Core.List.Memᴰ
use native.Mathlib.Decide.{ℕ_discrete}
use lua.Prelude.{
  ℕ, zero, suc, ◌≡◌, ◌⊎◌, inl, inr, refl, false, List, [], ◌∷◌, ap, ◌∙◌, sym, subst, Bool-cases,
}
use lua.Gc.Heap.{Collector, GcColor, gray, black, is_white, color_of, children}
use lua.Gc.Marking.{propagate_one, propagate_marks}
use lua.Gc.Shades.{Shades}
use lua.Gc.Rounds.{Round, propagate_one-Round}

-- Among the objects of the collector, one that is gray waits in the gray list, and a black object has no white child.
pub record Tricolor (s : Collector) : Type 0 where
  pub listed : (a : ℕ) → Memᴰ a s.all_objects → color_of s a ≡ gray → Memᴰ a s.gray_list
  pub shaded :
      (a b : ℕ)
      → Memᴰ a s.all_objects
      → color_of s a ≡ black
      → Memᴰ b (children (s.memory a))
      → is_white (color_of s b) ≡ false

pub List-cases : (xs : List ℕ) → (xs ≡ []) ⊎ ((x : ℕ) × (rest : List ℕ) × (xs ≡ x ∷ rest))
List-cases [] = inl refl
List-cases (x ∷ rest) = inr (x, rest, refl)

gray-not_white : (c : GcColor) → c ≡ gray → is_white c ≡ false
gray-not_white c e = ap is_white e

module _ {obj : ℕ} {s u : Collector} (r : Round obj s u) where
  was : {a : ℕ} → Memᴰ a u.all_objects → Memᴰ a s.all_objects
  was {a} o = subst (λ (xs : List ℕ). Memᴰ a xs) r.same_objects o

  pub never_white : (b : ℕ) → is_white (color_of s b) ≡ false → is_white (color_of u b) ≡ false
  never_white b w = elim (ℕ_discrete b obj) [
    | yes e ↦ ap (λ (x : ℕ). is_white (color_of u x)) e ∙ ap is_white r.blackened
    | no ne ↦ ap is_white (r.kept b ne w) ∙ w
  ]

  Round-listed :
      Tricolor s → (a : ℕ) → Memᴰ a u.all_objects → color_of u a ≡ gray → Memᴰ a u.gray_list
  Round-listed h a o e = elim (ℕ_discrete a obj) [
    | yes same ↦ let e' = ap (color_of u) (sym same) ∙ e in cc (r.blackened)
    | no ne ↦ elim (Bool-cases (is_white (color_of s a))) [
      | inl w ↦ elim (r.only a ne w) [ inl e' ↦ cc | inr (_, _, i) ↦ i ]
      | inr w ↦ elim (r.others a (h.listed a (was o) (sym (r.kept a ne w) ∙ e))) [
        | inl same ↦ absurd (ne same)
        | inr i ↦ i
      ]
    ]
  ]

  Round-shaded :
      Tricolor s
      → (a b : ℕ) → Memᴰ a u.all_objects
      → color_of u a ≡ black
      → Memᴰ b (children (u.memory a))
      → is_white (color_of u b) ≡ false
  Round-shaded h a b o e i = elim (ℕ_discrete a obj) [
    | yes same ↦ r.hit b (
        subst (λ (x : ℕ). Memᴰ b (children (s.memory x))) same
          (subst (λ (xs : List ℕ). Memᴰ b xs) (r.same_children a) i))
    | no ne ↦ elim (Bool-cases (is_white (color_of s a))) [
      | inl w ↦ elim (r.only a ne w) [ inl e' ↦ cc | inr (e', _, _) ↦ cc ]
      | inr w ↦ never_white b (
          h.shaded a b (was o) (sym (r.kept a ne w) ∙ e)
            (subst (λ (xs : List ℕ). Memᴰ b xs) (r.same_children a) i))
    ]
  ]

  pub Round-Tricolor : Tricolor s → Tricolor u
  Round-Tricolor h = record { listed = Round-listed h; shaded = Round-shaded h }

-- Marking objects keeps the invariant.
pub Shades-Tricolor : (new : List ℕ) (s t : Collector) → Shades new s t → Tricolor s → Tricolor t
Shades-Tricolor new s t f h = record {
  listed = λ a o e. elim (Bool-cases (is_white (color_of s a))) [
    | inl w ↦ elim (f.only a w) [ inl e' ↦ cc | inr (_, _, i) ↦ i ]
    | inr w ↦
        let (ns, q, _) = f.appended in
        subst (λ (xs : List ℕ). Memᴰ a xs) (sym q)
          (Memᴰ.append_left ns (h.listed a (was o) (sym (f.kept a w) ∙ e)))
  ];
  shaded = λ a b o e i. elim (Bool-cases (is_white (color_of s a))) [
    | inl w ↦ elim (f.only a w) [ inl e' ↦ cc | inr (e', _, _) ↦ cc ]
    | inr w ↦
        let old =
          h.shaded a b (was o) (sym (f.kept a w) ∙ e)
            (subst (λ (xs : List ℕ). Memᴰ b xs) (f.same_children a) i) in
        ap is_white (f.kept b old) ∙ old
  ];
}
  where
    was : {a : ℕ} → Memᴰ a t.all_objects → Memᴰ a s.all_objects
    was {a} o = subst (λ (xs : List ℕ). Memᴰ a xs) f.same_objects o

-- What every round keeps, the whole loop keeps, and it ends with an empty gray list or at its budget.
pub propagate_rule {ℓ} :
    (P : Collector → Type ℓ)
    → ((obj : ℕ) (s u : Collector) → Round obj s u → P s → P u)
    → (budget : ℕ) (s : Collector) → P s
    → P (propagate_marks budget s).0
unfolding propagate_marks
propagate_rule P keep zero s p = p
propagate_rule P keep (suc budget) s p = elim (List-cases s.gray_list) [
  | inl e ↦ rw (e, propagate_marks) p
  | inr (y, rest, e) ↦
      let (obj, r) = propagate_one-Round s y rest e in
      rw (e, propagate_marks)
        (propagate_rule P keep budget (propagate_one s) (keep obj s (propagate_one s) r p))
]

-- Marking with any budget keeps the invariant.
pub propagate_marks-Tricolor :
    (budget : ℕ) (s : Collector) → Tricolor s → Tricolor (propagate_marks budget s).0
propagate_marks-Tricolor = propagate_rule Tricolor (λ obj s u r. Round-Tricolor r)
