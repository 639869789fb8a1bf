-- ===== src/Gc/Shades.antt =====
-- What marking changes (src/gc/gc_mark.cpp): colours go from white to gray alone, and each object
-- that turns gray is appended to the gray list.
use mathlib.Core.List.{Memᴰ, append_assoc, append-nil}
use mathlib.Core.List.Memᴰ
use lua.Prelude.{
  ℕ, ◌≡◌, ◌≢◌, ◌⊎◌, inl, inr, refl, true, false, List, [], ◌∷◌, ◌++◌, Bool-cases, ap, ◌∙◌, sym,
  arith, ◌==◌, if◌then◌else◌,
}
use lua.Gc.Heap.{
  Collector, Object, Store, GcColor, white, gray, black, is_white, color_of, children, update,
  set_color, is_table,
}
use lua.Gc.Marking.{reset_object, mark_object, mark_objects, mark_table, mark_children}

-- The step from one state to another marks the objects of a list, and changes no field of an
-- object beside those that `mark` resets.
pub record Shades (new : List ℕ) (s t : Collector) : Type 0 where
  pub kept : (b : ℕ) → is_white (color_of s b) ≡ false → color_of t b ≡ color_of s b
  pub hit : (b : ℕ) → Memᴰ b new → is_white (color_of t b) ≡ false
  pub only :
      (b : ℕ)
      → is_white (color_of s b) ≡ true
      → (color_of t b ≡ white) ⊎ (color_of t b ≡ gray) × Memᴰ b new × Memᴰ b t.gray_list
  pub appended :
      (ns : List ℕ) × (t.gray_list ≡ s.gray_list ++ ns) × ((b : ℕ) → Memᴰ b ns → Memᴰ b new)
  pub same_children : (b : ℕ) → children (t.memory b) ≡ children (s.memory b)
  pub same_fields : (b : ℕ) → reset_object (t.memory b) ≡ reset_object (s.memory b)
  pub same_objects : t.all_objects ≡ s.all_objects
  pub same_phase : t.incremental_phase ≡ s.incremental_phase

pub white-eq : (c : GcColor) → is_white c ≡ true → c ≡ white
white-eq white e = refl
white-eq gray e = cc
white-eq black e = cc

eqb-eq : (a b : ℕ) → (a == b) ≡ true → a ≡ b
eqb-eq a b h = ground arith

pub color-set_color :
    (m : Store) (a b : ℕ) (c : GcColor)
    → (set_color m a c b).color ≡ (if a == b then c else (m b).color)
color-set_color m a b c = elim (Bool-cases (a == b)) [ inl e ↦ rw e refl | inr e ↦ rw e refl ]

pub color_self : (m : Store) (a b : ℕ) (c : GcColor) → a ≡ b → (set_color m a c b).color ≡ c
color_self m a b c eq =
    color-set_color m a b c ∙ (let same : (a == b) ≡ true = ground arith in rw same refl)

pub update_self : (m : Store) (a b : ℕ) (o : Object) → a ≡ b → update m a o b ≡ o
update_self m a b o e = let same : (a == b) ≡ true = ground arith in rw same refl

pub update-other : (m : Store) (a b : ℕ) (o : Object) → a ≢ b → update m a o b ≡ m b
update-other m a b o ne = let other : (a == b) ≡ false = ground arith in rw other refl

-- A field that the new object at an address shares with the old one does not change.
pub field-update {ℓ} :
    {B : Type ℓ} (f : Object → B) (m : Store) (a b : ℕ) (o : Object)
    → f o ≡ f (m a)
    → f (update m a o b) ≡ f (m b)
field-update f m a b o h = elim (Bool-cases (a == b)) [
  | inl e ↦ rw e (h ∙ ap (λ (x : ℕ). f (m x)) (eqb-eq a b e))
  | inr e ↦ rw e refl
]

pub children-set_color :
    (m : Store) (a b : ℕ) (c : GcColor) → children (set_color m a c b) ≡ children (m b)
unfolding children
children-set_color m a b c = field-update children m a b _ refl

pub mark_object-Shades : (s : Collector) (a : ℕ) → Shades (a ∷ []) s (mark_object s a)
unfolding mark_object
mark_object-Shades s a = elim (Bool-cases (is_white (color_of s a))) [
  | inl e ↦ rw e (record {
    kept = λ b w. color-set_color s.memory a b gray ∙ elim (Bool-cases (a == b)) [
      | inl same ↦ let eq : a ≡ b = ground arith in cc
      | inr other ↦ rw other refl
    ];
    hit = λ b m. ap is_white (color_self s.memory a b gray (sym (Memᴰ.eq_of_singleton m)));
    only = λ b w. elim (Bool-cases (a == b)) [
      | inl same ↦
          let eq : b ≡ a = ground arith in
          inr (
            color-set_color s.memory a b gray ∙ rw same refl,
            Memᴰ.head eq,
            Memᴰ.append_right s.gray_list (Memᴰ.head eq),
          )
      | inr other ↦ inl (color-set_color s.memory a b gray ∙ rw other (white-eq _ w))
    ];
    appended = (a ∷ [], refl, λ b m. m);
    same_children = λ b. children-set_color s.memory a b gray;
    same_fields = λ b. field-update reset_object s.memory a b _ refl;
    same_objects = refl;
    same_phase = refl;
  })
  | inr e ↦ rw e (record {
    kept = λ b w. refl;
    hit = λ b m. rw (Memᴰ.eq_of_singleton m) e;
    only = λ b w. inl (white-eq _ w);
    appended = ([], sym (append-nil s.gray_list), λ b m. absurd (Memᴰ.not-nil m));
    same_children = λ b. refl;
    same_fields = λ b. refl;
    same_objects = refl;
    same_phase = refl;
  })
]

module _ {n m : List ℕ} {s t u : Collector} (f : Shades n s t) (g : Shades m t u) where
  gray-later : (b : ℕ) → Memᴰ b t.gray_list → Memᴰ b u.gray_list
  gray-later b i = let (ns, e, _) = g.appended in rw e (Memᴰ.append_left ns i)

  only-later :
      (b : ℕ)
      → is_white (color_of s b) ≡ true
      → (color_of u b ≡ white) ⊎ (color_of u b ≡ gray) × Memᴰ b (n ++ m) × Memᴰ b u.gray_list
  only-later b w = elim (f.only b w) [
    | inl still ↦ elim (g.only b (ap is_white still)) [
      | inl e ↦ inl e
      | inr (e, i, j) ↦ inr (e, Memᴰ.append_right n i, j)
    ]
    | inr (e, i, j) ↦ inr (g.kept b (ap is_white e) ∙ e, Memᴰ.append_left m i, gray-later b j)
  ]

  pub Shades_trans : Shades (n ++ m) s u
  Shades_trans = record {
    kept = λ b w. let e = f.kept b w in g.kept b (ap is_white e ∙ w) ∙ e;
    hit = λ b i. elim (Memᴰ.append_cases n i) [
      | inl first ↦ let w = f.hit b first in ap is_white (g.kept b w) ∙ w
      | inr second ↦ g.hit b second
    ];
    only = only-later;
    appended =
        let (ns, e, to) = f.appended in
        let (ms, e', to') = g.appended in
        (
          ns ++ ms,
          e' ∙ ap (λ (xs : List ℕ). xs ++ ms) e ∙ append_assoc s.gray_list ns ms,
          λ b i. elim (Memᴰ.append_cases ns i) [
            | inl first ↦ Memᴰ.append_left m (to b first)
            | inr second ↦ Memᴰ.append_right n (to' b second)
          ],
        );
    same_fields = λ b. g.same_fields b ∙ f.same_fields b;
    same_children = λ b. g.same_children b ∙ f.same_children b;
    same_objects = g.same_objects ∙ f.same_objects;
    same_phase = g.same_phase ∙ f.same_phase;
  }

pub mark_objects-Shades : (s : Collector) (new : List ℕ) → Shades new s (mark_objects s new)
unfolding mark_objects
mark_objects-Shades s [] = record {
  kept = λ b w. refl;
  hit = λ b m. absurd (Memᴰ.not-nil m);
  only = λ b w. inl (white-eq _ w);
  appended = ([], sym (append-nil s.gray_list), λ b m. m);
  same_children = λ b. refl;
  same_fields = λ b. refl;
  same_objects = refl;
  same_phase = refl;
}
mark_objects-Shades s (a ∷ rest) =
    Shades_trans (mark_object-Shades s a) (mark_objects-Shades (mark_object s a) rest)

pub color-mark_table : (s : Collector) (a b : ℕ) → color_of (mark_table s a) b ≡ color_of s b
unfolding mark_table
color-mark_table s a b = field-update (λ (o : Object). o.color) s.memory a b _ refl

mark_table-Shades : (s : Collector) (a : ℕ) → Shades [] s (mark_table s a)
unfolding mark_table children
mark_table-Shades s a = record {
  kept = λ b w. color-mark_table s a b;
  hit = λ b m. absurd (Memᴰ.not-nil m);
  only = λ b w. inl (color-mark_table s a b ∙ white-eq _ w);
  appended = ([], sym (append-nil s.gray_list), λ b m. m);
  same_children = λ b. field-update children s.memory a b _ refl;
  same_fields = λ b. field-update reset_object s.memory a b _ refl;
  same_objects = refl;
  same_phase = refl;
}

pub mark_children-Shades :
    (s : Collector) (a : ℕ) → Shades (children (s.memory a)) s (mark_children s a)
unfolding mark_children
mark_children-Shades s a = elim (Bool-cases (is_table (s.memory a).type_)) [
  | inl e ↦ rw e (
      Shades_trans (mark_table-Shades s a)
        (mark_objects-Shades (mark_table s a) (children (s.memory a))))
  | inr e ↦ rw e (mark_objects-Shades s (children (s.memory a)))
]
