-- ===== src/Gc/Marked.antt =====
-- After `mark` the reached objects are black and the others white (src/gc/gc_mark.cpp).
use mathlib.Core.List.{Memᴰ}
use mathlib.Core.List.Memᴰ
use lua.Prelude.{
  ℕ, ◌≤◌, ◌≡◌, ◌⊎◌, inl, inr, refl, false, List, [], ◌∙◌, sym, subst, Bool-cases, length, arith,
}
use lua.Table.Nodes.{usize_max}
use lua.Gc.Heap.{Collector, GcColor, white, gray, black, is_white, color_of, children}
use lua.Gc.Marking.{reset_object, mark_roots, mark, whiten, propagate_all}
use lua.Gc.Shades.{Shades, white-eq}
use lua.Gc.Tricolor.{Tricolor, Shades-Tricolor, propagate_rule, Round-Tricolor, never_white}
use lua.Gc.Work.{Within, work, whites-length, mark_objects-work, propagate_marks_ends}
use lua.Gc.Live.{
  Reach, root, step, root_set, Sound, Round-Sound, Shades-Sound, start-Sound, start-Tricolor,
  reset-children, reset_objects_fields, mark_roots-Shades, mark_roots_lem,
}

-- The roots and the pointers of the heap lead to its objects.
pub record WellFormed (shared : List ℕ) (s : Collector) : Type 0 where
  pub rooted : (a : ℕ) → Memᴰ a (root_set shared s) → Memᴰ a s.all_objects
  pub pointed :
      (a b : ℕ) → Memᴰ a s.all_objects → Memᴰ b (children (s.memory a)) → Memᴰ b s.all_objects

GcColor-cases : (c : GcColor) → (c ≡ white) ⊎ ((c ≡ gray) ⊎ (c ≡ black))
GcColor-cases white = inl refl
GcColor-cases gray = inr (inl refl)
GcColor-cases black = inr (inr refl)

module _ (shared : List ℕ) (s : Collector) (wf : WellFormed shared s) where
  abbrev ready : Collector
  ready = mark_roots shared (whiten s)

  roots_marked : Shades (root_set shared s) (whiten s) ready
  roots_marked = mark_roots-Shades shared (whiten s)

  ready-Within : Within ready
  ready-Within = record {
    inside = λ a b o i. back (
        wf.pointed a b (forth o) (
          subst (λ (xs : List ℕ). Memᴰ b xs)
            (roots_marked.same_children a ∙ reset-children s.memory s.all_objects a) i));
    grays = λ a i.
        let (ns, e, from) = roots_marked.appended in
        back (wf.rooted a (from a (subst (λ (xs : List ℕ). Memᴰ a xs) e i)));
  }
    where
      back : {b : ℕ} → Memᴰ b s.all_objects → Memᴰ b ready.all_objects
      back {b} o = subst (λ (xs : List ℕ). Memᴰ b xs) (sym roots_marked.same_objects) o

      forth : {b : ℕ} → Memᴰ b ready.all_objects → Memᴰ b s.all_objects
      forth {b} o = subst (λ (xs : List ℕ). Memᴰ b xs) roots_marked.same_objects o

  ready-work : work ready ≤ length s.all_objects
  ready-work =
      let less = mark_objects-work (whiten s) (root_set shared s) wf.rooted in
      let small = whites-length (whiten s).memory s.all_objects in
      rw (mark_roots_lem shared (whiten s)) (omega (arith, less, small))

  module _ (fits : length s.all_objects ≤ usize_max) where
    abbrev marked : Collector
    marked = propagate_all ready

    no_gray_left : marked.gray_list ≡ []
    no_gray_left = (propagate_marks_ends usize_max ready ready-Within (omega (arith, ready-work))).0

    marked-Sound : Sound shared s marked
    marked-Sound = propagate_rule (Sound shared s) (Round-Sound shared s) usize_max ready (
        Shades-Sound shared s (root_set shared s) (whiten s) ready roots_marked (λ b i. root i)
          (start-Sound shared s))

    marked-Tricolor : Tricolor marked
    marked-Tricolor =
        propagate_rule Tricolor (λ obj t u r. Round-Tricolor r) usize_max ready
          (Shades-Tricolor (root_set shared s) (whiten s) ready roots_marked
            (start-Tricolor shared s))

    marked-objects : marked.all_objects ≡ s.all_objects
    marked-objects =
        propagate_rule (λ t. t.all_objects ≡ s.all_objects) (λ obj t u r e. r.same_objects ∙ e)
          usize_max ready roots_marked.same_objects

    never_gray :
        (a : ℕ)
        → Memᴰ a s.all_objects
        → is_white (color_of marked a) ≡ false
        → color_of marked a ≡ black
    never_gray a o n = elim (GcColor-cases (color_of marked a)) [
      | inl e ↦ cc
      | inr (inl e) ↦
          let i =
            marked-Tricolor.listed a (subst (λ (xs : List ℕ). Memᴰ a xs) (sym marked-objects) o)
              e in
          absurd (Memᴰ.not-nil (subst (λ (xs : List ℕ). Memᴰ a xs) no_gray_left i))
      | inr (inr e) ↦ e
    ]

    root_marked : (a : ℕ) → Memᴰ a (root_set shared s) → is_white (color_of marked a) ≡ false
    root_marked a i =
        propagate_rule (λ t. is_white (color_of t a) ≡ false) (λ obj t u r. never_white r a)
          usize_max ready (roots_marked.hit a i)

    complete :
        (a : ℕ) → Reach shared s a → Memᴰ a s.all_objects × (is_white (color_of marked a) ≡ false)
    complete a (root i) = (wf.rooted a i, root_marked a i)
    complete b (step {a} r i) =
        let (o, n) = complete a r in
        (
          wf.pointed a b o i,
          marked-Tricolor.shaded a b (subst (λ (xs : List ℕ). Memᴰ a xs) (sym marked-objects) o)
              (never_gray a o n)
              (subst (λ (xs : List ℕ). Memᴰ b xs) (sym (marked-Sound.pointers a)) i),
        )

    decided :
        (a : ℕ)
        → Memᴰ a s.all_objects
        → (color_of marked a ≡ black) × Reach shared s a
          ⊎ (color_of marked a ≡ white) × (¬ Reach shared s a)
    decided a o = elim (Bool-cases (is_white (color_of marked a))) [
      | inl w ↦ inr (white-eq _ w, λ r. let (_, n) = complete a r in cc)
      | inr n ↦ inl (never_gray a o n, marked-Sound.colored a o n)
    ]

-- `mark` changes no list of objects, and no field beside those that it resets.
pub mark_fields :
    (shared : List ℕ) (s : Collector)
    → ((mark shared s).all_objects ≡ s.all_objects)
      × ((b : ℕ) → reset_object ((mark shared s).memory b) ≡ reset_object (s.memory b))
unfolding mark
mark_fields shared s =
    let f = mark_roots-Shades shared (whiten s) in
    propagate_rule
      (λ t.
        (t.all_objects ≡ s.all_objects)
        × ((b : ℕ) → reset_object (t.memory b) ≡ reset_object (s.memory b)))
      (λ obj t u r h. (r.same_objects ∙ h.0, λ b. r.same_fields b ∙ h.1 b)) usize_max
      (mark_roots shared (whiten s))
      (f.same_objects, λ b. f.same_fields b ∙ reset_objects_fields s.memory s.all_objects b)

pub mark-Tricolor : (shared : List ℕ) (s : Collector) → Tricolor (mark shared s)
unfolding mark
mark-Tricolor shared s =
    propagate_rule Tricolor (λ obj t u r. Round-Tricolor r) usize_max (mark_roots shared (whiten s))
      (Shades-Tricolor (root_set shared s) (whiten s) (mark_roots shared (whiten s))
        (mark_roots-Shades shared (whiten s)) (start-Tricolor shared s))

-- On a heap whose roots and pointers lead to its objects, and with at most `usize_max` of them,
-- `mark` ends with no gray object, and an object is black then if the roots reach it and white
-- otherwise.
pub mark_reached :
    (shared : List ℕ) (s : Collector)
    → WellFormed shared s
    → length s.all_objects ≤ usize_max
    → ((mark shared s).gray_list ≡ [])
      × ((a : ℕ)
          → Memᴰ a s.all_objects
          → (color_of (mark shared s) a ≡ black) × Reach shared s a
            ⊎ (color_of (mark shared s) a ≡ white) × (¬ Reach shared s a))
unfolding mark
mark_reached shared s wf fits = (no_gray_left shared s wf fits, decided shared s wf fits)
