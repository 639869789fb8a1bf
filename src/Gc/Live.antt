-- ===== src/Gc/Live.antt =====
-- What `mark` marks: the objects that the roots reach (src/gc/gc_mark.cpp).
use mathlib.Core.List.{Memᴰ}
use mathlib.Core.List.Memᴰ
use native.Mathlib.Decide.{ℕ_discrete}
use lua.Prelude.{
  ℕ, ◌≡◌, ◌⊎◌, inl, inr, refl, true, false, List, [], ◌∷◌, ◌++◌, ◌∙◌, sym, subst, Bool-cases, arith,
  ◌==◌,
}
use lua.Gc.Heap.{Collector, Store, is_white, color_of, children, update}
use lua.Gc.Marking.{mark_object, mark_objects, mark_roots, whiten, reset_objects, reset_object}
use lua.Gc.Shades.{Shades, field-update, mark_objects-Shades}
use lua.Gc.Rounds.{Round}
use lua.Gc.Tricolor.{Tricolor}

abbrev pub root_set : List ℕ → Collector → List ℕ
root_set shared s = (s.roots ++ shared) ++ s.pending_finalizers

-- The objects that the roots reach: `shared` holds what `GlobalState::markRoots` marks.
pub data Reach (shared : List ℕ) (s : Collector) : ℕ → Type 0 where
  root : {a : ℕ} → Memᴰ a (root_set shared s) → Reach shared s a
  step : {a b : ℕ} → Reach shared s a → Memᴰ b (children (s.memory a)) → Reach shared s b

pub reset-children :
    (m : Store) (xs : List ℕ) (b : ℕ) → children (reset_objects m xs b) ≡ children (m b)
unfolding reset_objects children
reset-children m [] b = refl
reset-children m (a ∷ rest) b =
    reset-children (update m a (reset_object (m a))) rest b ∙ field-update children m a b _ refl

pub reset_objects_fields :
    (m : Store) (xs : List ℕ) (b : ℕ) → reset_object (reset_objects m xs b) ≡ reset_object (m b)
unfolding reset_objects
reset_objects_fields m [] b = refl
reset_objects_fields m (a ∷ rest) b =
    reset_objects_fields (update m a (reset_object (m a))) rest b
    ∙ field-update reset_object m a b _ refl

-- A list of objects is white once it is reset.
reset-white :
    (xs : List ℕ) (m : Store) (b : ℕ)
    → Memᴰ b xs ⊎ (is_white (m b).color ≡ true)
    → is_white (reset_objects m xs b).color ≡ true
unfolding reset_objects children
reset-white [] m b h = elim h [ inl i ↦ absurd (Memᴰ.not-nil i) | inr w ↦ w ]
reset-white (a ∷ rest) m b h =
    reset-white rest (update m a (reset_object (m a))) b (now (Bool-cases (a == b)))
  where
    now :
        ((a == b) ≡ true) ⊎ ((a == b) ≡ false)
        → Memᴰ b rest ⊎ (is_white (update m a (reset_object (m a)) b).color ≡ true)
    now (inl e) = inr (rw e refl)
    now (inr e) = elim h [
      | inl i ↦ elim (Memᴰ.cases_cons i) [ inl same ↦ absurd (ground arith) | inr j ↦ inl j ]
      | inr w ↦ inr (rw e w)
    ]

mark_objects-append :
    (xs ys : List ℕ) (s : Collector)
    → mark_objects s (xs ++ ys) ≡ mark_objects (mark_objects s xs) ys
unfolding mark_objects
mark_objects-append [] ys s = refl
mark_objects-append (x ∷ xs) ys s = mark_objects-append xs ys (mark_object s x)

pub mark_roots_lem :
    (shared : List ℕ) (s : Collector) → mark_roots shared s ≡ mark_objects s (root_set shared s)
unfolding mark_roots
mark_roots_lem shared s =
    rw
      (
        mark_objects-append (s.roots ++ shared) s.pending_finalizers s,
        mark_objects-append s.roots shared s,
      )
      refl

pub mark_roots-Shades :
    (shared : List ℕ) (s : Collector) → Shades (root_set shared s) s (mark_roots shared s)
mark_roots-Shades shared s =
    subst (Shades (root_set shared s) s) (sym (mark_roots_lem shared s))
      (mark_objects-Shades s (root_set shared s))

module _ (shared : List ℕ) (s : Collector) where
  -- Only what the roots reach is marked.
  pub record Sound (t : Collector) : Type 0 where
    pub colored :
        (b : ℕ) → Memᴰ b s.all_objects → is_white (color_of t b) ≡ false → Reach shared s b
    pub queued : (b : ℕ) → Memᴰ b t.gray_list → Reach shared s b
    pub pointers : (b : ℕ) → children (t.memory b) ≡ children (s.memory b)

  child :
      (t : Collector) (a b : ℕ)
      → Sound t
      → Reach shared s a
      → Memᴰ b (children (t.memory a))
      → Reach shared s b
  child t a b h r i = step r (subst (λ (xs : List ℕ). Memᴰ b xs) (h.pointers a) i)

  pub Round-Sound : (obj : ℕ) (t u : Collector) → Round obj t u → Sound t → Sound u
  Round-Sound obj t u r h = record {
    colored = λ b o n. elim (ℕ_discrete b obj) [
      | yes e ↦ subst (Reach shared s) (sym e) (h.queued obj r.taken)
      | no ne ↦ elim (Bool-cases (is_white (color_of t b))) [
        | inl w ↦ elim (r.only b ne w) [
          | inl e ↦ cc
          | inr (_, i, _) ↦ child t obj b h (h.queued obj r.taken) i
        ]
        | inr w ↦ h.colored b o w
      ]
    ];
    queued = λ b i. elim (r.source b i) [
      | inl j ↦ h.queued b j
      | inr j ↦ child t obj b h (h.queued obj r.taken) j
    ];
    pointers = λ b. r.same_children b ∙ h.pointers b;
  }

  pub Shades-Sound :
      (new : List ℕ) (t u : Collector)
      → Shades new t u
      → ((b : ℕ) → Memᴰ b new → Reach shared s b)
      → Sound t
      → Sound u
  Shades-Sound new t u f ok h = record {
    colored = λ b o n. elim (Bool-cases (is_white (color_of t b))) [
      | inl w ↦ elim (f.only b w) [ inl e ↦ cc | inr (_, i, _) ↦ ok b i ]
      | inr w ↦ h.colored b o w
    ];
    queued = λ b i.
        let (ns, e, from) = f.appended in
        elim (Memᴰ.append_cases t.gray_list (subst (λ (xs : List ℕ). Memᴰ b xs) e i)) [
          | inl j ↦ h.queued b j
          | inr j ↦ ok b (from b j)
        ];
    pointers = λ b. f.same_children b ∙ h.pointers b;
  }

  white_start : (b : ℕ) → Memᴰ b s.all_objects → is_white (color_of (whiten s) b) ≡ true
  white_start b o = reset-white s.all_objects s.memory b (inl o)

  pub start-Sound : Sound (whiten s)
  start-Sound = record {
    colored = λ b o n. let w = white_start b o in cc;
    queued = λ b i. absurd (Memᴰ.not-nil i);
    pointers = reset-children s.memory s.all_objects;
  }

  pub start-Tricolor : Tricolor (whiten s)
  start-Tricolor = record {
    listed = λ a o e. let w = white_start a o in cc;
    shaded = λ a b o e i. let w = white_start a o in cc;
  }
