-- ===== src/Gc/Barriers.antt =====
-- The barriers and the allocation of objects keep the tri-colour invariant (src/gc/gc_mark.cpp,
-- garbage_collector.cpp).
use mathlib.Core.List.{Memᴰ}
use mathlib.Core.List.Memᴰ
use native.Mathlib.Decide.{ℕ_discrete}
use lua.Prelude.{
  ℕ, ◌≡◌, ◌≢◌, ◌⊎◌, inl, inr, refl, Bool, true, false, List, [], ◌∷◌, ap, ◌∙◌, sym, subst,
  Bool-cases, ◌==◌, ◌&&◌, arith,
}
use lua.Table.Nodes.{usize_max}
use lua.Gc.Heap.{
  Collector, Object, Reference, GcColor, white, gray, black, is_white, is_black, color_of, children,
  update,
}
use lua.Gc.Marking.{mark_object, write_barrier, needs_barrier}
use lua.Gc.Shades.{mark_object-Shades, field-update}
use lua.Gc.Tricolor.{
  Tricolor, Shades-Tricolor, propagate_rule, never_white, propagate_marks-Tricolor,
}

-- A store of new references into an object.
abbrev pub assign : Collector → ℕ → List Reference → Collector
assign s owner refs = record s {
  memory = update s.memory owner (record (s.memory owner) { references = refs });
}

module _ (s : Collector) (owner : ℕ) (refs : List Reference) where
  assign-color : (b : ℕ) → color_of (assign s owner refs) b ≡ color_of s b
  assign-color b = field-update (λ (o : Object). o.color) s.memory owner b _ refl

  assign_others : (a : ℕ) → owner ≢ a → (assign s owner refs).memory a ≡ s.memory a
  assign_others a ne = let other : (owner == a) ≡ false = ground arith in rw other refl

  -- Where a black owner gets no white child, the invariant stays.
  pub assign-Tricolor :
      Tricolor s
      → ((b : ℕ)
          → Memᴰ b (children ((assign s owner refs).memory owner))
          → color_of s owner ≡ black
          → is_white (color_of s b) ≡ false)
      → Tricolor (assign s owner refs)
  assign-Tricolor h safe = record {
    listed = λ a o e. h.listed a o (sym (assign-color a) ∙ e);
    shaded = λ a b o e i. ap is_white (assign-color b) ∙ elim (ℕ_discrete owner a) [
      | yes same ↦
          safe b
            (subst (λ (x : ℕ). Memᴰ b (children ((assign s owner refs).memory x))) (sym same) i)
            (subst (λ (x : ℕ). color_of s x ≡ black) (sym same) (sym (assign-color a) ∙ e))
      | no ne ↦
          h.shaded a b o (sym (assign-color a) ∙ e)
            (subst (λ (x : Object). Memᴰ b (children x)) (assign_others a ne) i)
    ];
  }

black-eq : (c : GcColor) → is_black c ≡ true → c ≡ black
black-eq white e = cc
black-eq gray e = cc
black-eq black e = refl

and_black : (a b c d : Bool) → ((a && b) && (c && d)) ≡ true → (c ≡ true) × (d ≡ true)
and_black a b c d h = ground arith

not_fourth :
    (a b c d : Bool) → a ≡ true → b ≡ true → c ≡ true → ((a && b) && (c && d)) ≡ false → d ≡ false
not_fourth a b c d ha hb hc h = ground arith

-- The Boolean tests of a barrier, one by one
module _ (s : Collector) (owner child : ℕ) where
  needed :
      needs_barrier s owner child ≡ true
      → (is_black (color_of s owner) ≡ true) × (is_white (color_of s child) ≡ true)
  needed =
      and_black (s.memory owner).owned (s.memory child).owned (is_black (color_of s owner))
        (is_white (color_of s child))

  pub unneeded :
      (s.memory owner).owned ≡ true
      → (s.memory child).owned ≡ true
      → color_of s owner ≡ black
      → needs_barrier s owner child ≡ false
      → is_white (color_of s child) ≡ false
  unneeded ho hc h =
      not_fourth (s.memory owner).owned (s.memory child).owned (is_black (color_of s owner))
        (is_white (color_of s child)) ho hc (ap is_black h)

  pub needs-black : needs_barrier s owner child ≡ true → color_of s owner ≡ black
  needs-black e = black-eq _ (needed e).0

  pub needs-white : needs_barrier s owner child ≡ true → is_white (color_of s child) ≡ true
  needs-white e = (needed e).1

-- The barriers before a store of several values, as in `Table::setArrayRange` and `Table::setHash`
abbrev pub barriers : Collector → ℕ → List ℕ → Collector
barriers s owner [] = s
barriers s owner (c ∷ rest) = barriers (write_barrier s owner c) owner rest

module _ (s : Collector) (owner child : ℕ) where
  abbrev pushed : Collector
  pushed = mark_object s child

  never_white_again :
      (b : ℕ)
      → is_white (color_of s b) ≡ false
      → is_white (color_of (write_barrier s owner child) b) ≡ false
  unfolding write_barrier
  never_white_again b n = elim (Bool-cases (needs_barrier s owner child)) [
    | inl e ↦ rw e (
        propagate_rule (λ t. is_white (color_of t b) ≡ false) (λ obj t u r. never_white r b)
          usize_max pushed (ap is_white ((mark_object-Shades s child).kept b n) ∙ n))
    | inr e ↦ rw e n
  ]

  write_barrier-Tricolor : Tricolor s → Tricolor (write_barrier s owner child)
  unfolding write_barrier
  write_barrier-Tricolor h = elim (Bool-cases (needs_barrier s owner child)) [
    | inl e ↦ rw e (
        propagate_marks-Tricolor usize_max pushed
          (Shades-Tricolor (child ∷ []) s pushed (mark_object-Shades s child) h))
    | inr e ↦ rw e h
  ]

  same-owned : (b : ℕ) → ((write_barrier s owner child).memory b).owned ≡ (s.memory b).owned
  unfolding write_barrier
  same-owned b = elim (Bool-cases (needs_barrier s owner child)) [
    | inl e ↦ rw e (
        propagate_rule (λ t. (t.memory b).owned ≡ (s.memory b).owned)
          (λ obj t u r e'. ap (λ (o : Object). o.owned) (r.same_fields b) ∙ e') usize_max pushed
          (ap (λ (o : Object). o.owned) ((mark_object-Shades s child).same_fields b)))
    | inr e ↦ rw e refl
  ]

  same-objects : (write_barrier s owner child).all_objects ≡ s.all_objects
  unfolding write_barrier
  same-objects = elim (Bool-cases (needs_barrier s owner child)) [
    | inl e ↦ rw e (
        propagate_rule (λ t. t.all_objects ≡ s.all_objects) (λ obj t u r e'. r.same_objects ∙ e')
          usize_max pushed (mark_object-Shades s child).same_objects)
    | inr e ↦ rw e refl
  ]

  black_before : color_of (write_barrier s owner child) owner ≡ black → color_of s owner ≡ black
  unfolding write_barrier
  black_before h = elim (Bool-cases (needs_barrier s owner child)) [
    | inl e ↦ needs-black s owner child e
    | inr e ↦ rw e at h
  ]

  child_marked :
      (s.memory owner).owned ≡ true
      → (s.memory child).owned ≡ true
      → color_of (write_barrier s owner child) owner ≡ black
      → is_white (color_of (write_barrier s owner child) child) ≡ false
  unfolding write_barrier
  child_marked ho hc h = elim (Bool-cases (needs_barrier s owner child)) [
    | inl e ↦ rw e (
        propagate_rule (λ t. is_white (color_of t child) ≡ false) (λ obj t u r. never_white r child)
          usize_max pushed ((mark_object-Shades s child).hit child (Memᴰ.head refl)))
    | inr e ↦ rw e (unneeded s owner child ho hc (rw e at h) e)
  ]

barriers-objects :
    (new : List ℕ) (s : Collector) (owner : ℕ) → (barriers s owner new).all_objects ≡ s.all_objects
barriers-objects [] s owner = refl
barriers-objects (c ∷ rest) s owner =
    barriers-objects rest (write_barrier s owner c) owner ∙ same-objects s owner c

-- After the barriers a black owner has no white child among those announced.
barriers_marked :
    (new : List ℕ) (s : Collector) (owner : ℕ)
    → (s.memory owner).owned ≡ true
    → ((b : ℕ) → Memᴰ b new → (s.memory b).owned ≡ true)
    → Tricolor s
    → Tricolor (barriers s owner new)
      × (color_of (barriers s owner new) owner ≡ black → color_of s owner ≡ black)
      × ((b : ℕ)
          → is_white (color_of s b) ≡ false
          → is_white (color_of (barriers s owner new) b) ≡ false)
      × ((b : ℕ)
          → Memᴰ b new
          → color_of (barriers s owner new) owner ≡ black
          → is_white (color_of (barriers s owner new) b) ≡ false)
barriers_marked [] s owner ho hn h = (h, λ e. e, λ b n. n, λ b i. absurd (Memᴰ.not-nil i))
barriers_marked (c ∷ rest) s owner ho hn h =
    let t = write_barrier s owner c in
    let (inv, dark, kept, hit) =
      barriers_marked rest t owner (same-owned s owner c owner ∙ ho)
        (λ b i. same-owned s owner c b ∙ hn b (Memᴰ.tail i)) (write_barrier-Tricolor s owner c h) in
    (
      inv,
      λ e. black_before s owner c (dark e),
      λ b n. kept b (never_white_again s owner c b n),
      λ b i e. elim (Memᴰ.cases_cons i) [
        | inl same ↦
            subst (λ (x : ℕ). is_white (color_of (barriers t owner rest) x) ≡ false) (sym same)
              (kept c (child_marked s owner c ho (hn c (Memᴰ.head refl)) (dark e)))
        | inr j ↦ hit b j e
      ],
    )

-- Where the barriers of an owner run for some values before the store of references that are
-- among its old ones and those values, all of this collector, the invariant stays.
pub barriers-Tricolor :
    (s : Collector) (owner : ℕ) (new : List ℕ) (refs : List Reference)
    → Memᴰ owner s.all_objects
    → (s.memory owner).owned ≡ true
    → ((b : ℕ) → Memᴰ b new → (s.memory b).owned ≡ true)
    → ((b : ℕ)
        → Memᴰ b (children ((assign (barriers s owner new) owner refs).memory owner))
        → Memᴰ b (children ((barriers s owner new).memory owner)) ⊎ Memᴰ b new)
    → Tricolor s
    → Tricolor (assign (barriers s owner new) owner refs)
barriers-Tricolor s owner new refs o ho hn old h =
    let t = barriers s owner new in
    let (inv, dark, kept, hit) = barriers_marked new s owner ho hn h in
    assign-Tricolor t owner refs inv (λ b i e. elim (old b i) [
      | inl j ↦
          inv.shaded owner b
            (subst (λ (xs : List ℕ). Memᴰ owner xs) (sym (barriers-objects new s owner)) o) e j
      | inr j ↦ hit b j e
    ])
