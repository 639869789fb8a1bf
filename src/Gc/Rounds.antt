-- ===== src/Gc/Rounds.antt =====
-- One round of `propagateMarks` (src/gc/gc_mark.cpp): the last gray object turns black, its
-- children turn gray, and it leaves the gray list.
use mathlib.Core.List.{Memᴰ, append_assoc}
use mathlib.Core.List.Memᴰ
use lua.Prelude.{
  ℕ, ◌-◌, ◌≡◌, ◌≢◌, ◌⊎◌, inl, inr, refl, true, false, List, [], ◌∷◌, ◌++◌, ap, ◌∙◌, sym, subst,
  arith, length, get_or, take, length-append, ◌==◌, get_or-append_right,
}
use lua.Gc.Heap.{Collector, white, gray, black, is_white, color_of, children, set_color}
use lua.Gc.Marking.{reset_object, propagate_one, mark_children, drop_at}
use lua.Gc.Shades.{
  Shades, mark_children-Shades, color-set_color, color_self, children-set_color, field-update,
}
use lua.Gc.Queue.{Mem-drop_at, last-split}

abbrev pub blacken : Collector → ℕ → Collector
blacken s a = record s { memory = set_color s.memory a black }

-- The round that scans an object, from one state to the next.
pub record Round (obj : ℕ) (s u : Collector) : Type 0 where
  pub taken : Memᴰ obj s.gray_list
  pub others : (b : ℕ) → Memᴰ b s.gray_list → (b ≡ obj) ⊎ Memᴰ b u.gray_list
  pub source : (b : ℕ) → Memᴰ b u.gray_list → Memᴰ b s.gray_list ⊎ Memᴰ b (children (s.memory obj))
  pub blackened : color_of u obj ≡ black
  pub kept : (b : ℕ) → b ≢ obj → is_white (color_of s b) ≡ false → color_of u b ≡ color_of s b
  pub hit : (b : ℕ) → Memᴰ b (children (s.memory obj)) → is_white (color_of u b) ≡ false
  pub only :
      (b : ℕ)
      → b ≢ obj
      → is_white (color_of s b) ≡ true
      → (color_of u b ≡ white)
        ⊎ (color_of u b ≡ gray) × Memᴰ b (children (s.memory obj)) × Memᴰ b u.gray_list
  pub same_children : (b : ℕ) → children (u.memory b) ≡ children (s.memory b)
  pub same_fields : (b : ℕ) → reset_object (u.memory b) ≡ reset_object (s.memory b)
  pub same_objects : u.all_objects ≡ s.all_objects
  pub same_phase : u.incremental_phase ≡ s.incremental_phase

module _ (s : Collector) (before : List ℕ) (obj : ℕ)
    (start : s.gray_list ≡ before ++ obj ∷ []) where
  abbrev scanned : Collector
  scanned = mark_children (blacken s obj) obj

  index : length s.gray_list - 1 ≡ length before
  index = omega (arith, ap (length {A = ℕ}) start, length-append before (obj ∷ []))

  last : get_or s.gray_list (length before) 0 ≡ obj
  last =
      ap (λ (xs : List ℕ). get_or xs (length before) 0) start
      ∙ get_or-append_right before (obj ∷ []) (length before) 0 0 (omega arith)

  round : propagate_one s ≡ record scanned { gray_list = drop_at scanned.gray_list (length before) }
  unfolding propagate_one
  round = rw (index, last) refl

  abbrev shades : Shades (children (s.memory obj)) (blacken s obj) scanned
  shades =
      subst (λ (xs : List ℕ). Shades xs (blacken s obj) scanned)
        (children-set_color s.memory obj obj black) (mark_children-Shades (blacken s obj) obj)

  color_kept : (b : ℕ) → b ≢ obj → color_of (blacken s obj) b ≡ color_of s b
  color_kept b ne =
      color-set_color s.memory obj b black
      ∙ (let other : (obj == b) ≡ false = ground arith in rw other refl)

  -- The objects in `ns` are those that the scan has appended.
  module _ (ns : List ℕ) (queue : scanned.gray_list ≡ before ++ obj ∷ ns) where
    abbrev after : Collector
    after = record scanned { gray_list = drop_at (before ++ obj ∷ ns) (length before) }

    left : (b : ℕ) → Memᴰ b before ⊎ Memᴰ b ns → Memᴰ b after.gray_list
    left b = (Mem-drop_at before obj ns b).1

    started : (b : ℕ) → Memᴰ b before → Memᴰ b s.gray_list
    started b i = subst (λ (xs : List ℕ). Memᴰ b xs) (sym start) (Memᴰ.append_left (obj ∷ []) i)

    others_left : (b : ℕ) → Memᴰ b s.gray_list → (b ≡ obj) ⊎ Memᴰ b after.gray_list
    others_left b i = elim (Memᴰ.append_cases before (subst (λ (xs : List ℕ). Memᴰ b xs) start i)) [
      | inl j ↦ inr (left b (inl j))
      | inr j ↦ inl (Memᴰ.eq_of_singleton j)
    ]

    still_listed : (b : ℕ) → b ≢ obj → Memᴰ b scanned.gray_list → Memᴰ b after.gray_list
    still_listed b ne i =
        elim (Memᴰ.append_cases before (subst (λ (xs : List ℕ). Memᴰ b xs) queue i)) [
          | inl j ↦ left b (inl j)
          | inr j ↦ elim (Memᴰ.cases_cons j) [ inl e ↦ absurd (ne e) | inr k ↦ left b (inr k) ]
        ]

    after-Round : ((b : ℕ) → Memᴰ b ns → Memᴰ b (children (s.memory obj))) → Round obj s after
    after-Round from = record {
      taken =
          subst (λ (xs : List ℕ). Memᴰ obj xs) (sym start)
            (Memᴰ.append_right before (Memᴰ.head refl));
      others = others_left;
      source = λ b i. elim ((Mem-drop_at before obj ns b).0 i) [
        | inl j ↦ inl (started b j)
        | inr j ↦ inr (from b j)
      ];
      blackened =
          let done = color_self s.memory obj obj black refl in
          shades.kept obj (ap is_white done) ∙ done;
      kept = λ b ne w. let same = color_kept b ne in shades.kept b (ap is_white same ∙ w) ∙ same;
      hit = shades.hit;
      only = λ b ne w. elim (shades.only b (ap is_white (color_kept b ne) ∙ w)) [
        | inl e ↦ inl e
        | inr (e, i, j) ↦ inr (e, i, still_listed b ne j)
      ];
      same_children = λ b. shades.same_children b ∙ children-set_color s.memory obj b black;
      same_fields = λ b. shades.same_fields b ∙ field-update reset_object s.memory obj b _ refl;
      same_objects = shades.same_objects;
      same_phase = shades.same_phase;
    }

  split-Round : Round obj s (propagate_one s)
  split-Round =
      let (ns, e, from) = shades.appended in
      let queue : scanned.gray_list ≡ before ++ obj ∷ ns =
        e ∙ ap (λ (xs : List ℕ). xs ++ ns) start ∙ append_assoc before (obj ∷ []) ns in
      subst (Round obj s)
        (sym (
          round
          ∙ ap (λ (xs : List ℕ). record scanned { gray_list = drop_at xs (length before) }) queue))
        (after-Round ns queue from)

-- A state with a gray list that is not empty has a round.
pub propagate_one-Round :
    (s : Collector) (y : ℕ) (rest : List ℕ)
    → s.gray_list ≡ y ∷ rest
    → (obj : ℕ) × Round obj s (propagate_one s)
propagate_one-Round s y rest e =
    let obj = get_or (y ∷ rest) (length rest) 0 in
    (obj, split-Round s (take (length rest) (y ∷ rest)) obj (e ∙ last-split y rest))
