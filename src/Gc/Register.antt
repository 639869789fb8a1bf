-- ===== src/Gc/Register.antt =====
-- Objects registered during a cycle (src/gc/garbage_collector.cpp).
use mathlib.Core.List.{Memᴰ}
use mathlib.Core.List.Memᴰ
use native.Mathlib.Decide.{ℕ_discrete}
use lua.Prelude.{
  ℕ, ◌≡◌, ◌≢◌, ◌⊎◌, inl, inr, refl, Bool, true, false, List, [], ◌∷◌, ◌++◌, ap, ◌∙◌, sym, subst,
  Bool-cases, ◌&&◌, ltb, length,
}
use lua.Table.Nodes.{usize_max}
use lua.Gc.Heap.{
  Collector, IncrementalPhase, Object, black, pause, is_white, is_sweep, is_pause, color_of,
  children,
}
use lua.Gc.Marking.{mark_children, propagate_all}
use lua.Gc.Objects.{reset_incremental_cycle, register_object, link_object}
use lua.Gc.Shades.{Shades, mark_children-Shades, field-update, update_self, update-other}
use lua.Gc.Tricolor.{Tricolor, propagate_marks-Tricolor, propagate_rule}

module _ (s : Collector) (a : ℕ) (running : is_pause s.incremental_phase ≡ false) where
  linked_self : (b : ℕ) → a ≡ b → color_of (link_object s a) b ≡ black
  unfolding link_object
  linked_self b e = ap (λ (o : Object). o.color) (update_self s.memory a b _ e) ∙ rw running refl

  linked_other : (b : ℕ) → a ≢ b → color_of (link_object s a) b ≡ color_of s b
  unfolding link_object
  linked_other b ne = ap (λ (o : Object). o.color) (update-other s.memory a b _ ne)

  linked-children : (b : ℕ) → children ((link_object s a).memory b) ≡ children (s.memory b)
  unfolding link_object children
  linked-children b = field-update children s.memory a b _ refl

  linked-queue : (link_object s a).gray_list ≡ s.gray_list
  unfolding link_object
  linked-queue = refl

  linked-objects : (link_object s a).all_objects ≡ a ∷ s.all_objects
  unfolding link_object
  linked-objects = refl

  abbrev scanned : Collector
  scanned = mark_children (link_object s a) a

  marks : Shades (children ((link_object s a).memory a)) (link_object s a) scanned
  marks = mark_children-Shades (link_object s a) a

  older : (b : ℕ) → a ≢ b → Memᴰ b scanned.all_objects → Memᴰ b s.all_objects
  older b ne o =
      elim (Memᴰ.cases_cons
        (subst (λ (xs : List ℕ). Memᴰ b xs) (marks.same_objects ∙ linked-objects) o)) [
          | inl e ↦ absurd (ne (sym e))
          | inr i ↦ i
        ]

  stays_colored : (b : ℕ) → is_white (color_of s b) ≡ false → is_white (color_of scanned b) ≡ false
  stays_colored b n = elim (ℕ_discrete a b) [
    | yes e ↦ let d = ap is_white (linked_self b e) in ap is_white (marks.kept b d) ∙ d
    | no ne ↦ let d = ap is_white (linked_other b ne) ∙ n in ap is_white (marks.kept b d) ∙ d
  ]

  scanned-Tricolor : Tricolor s → Tricolor scanned
  scanned-Tricolor h = record {
    listed = λ b o e. elim (ℕ_discrete a b) [
      | yes same ↦ let d = linked_self b same in let k = marks.kept b (ap is_white d) ∙ d in cc
      | no ne ↦ elim (Bool-cases (is_white (color_of (link_object s a) b))) [
        | inl w ↦ elim (marks.only b w) [ inl e' ↦ cc | inr (_, _, i) ↦ i ]
        | inr n ↦
            let (ns, q, _) = marks.appended in
            let old =
              h.listed b (older b ne o) (sym (linked_other b ne) ∙ sym (marks.kept b n) ∙ e) in
            subst (λ (xs : List ℕ). Memᴰ b xs)
              (sym (q ∙ ap (λ (xs : List ℕ). xs ++ ns) linked-queue)) (Memᴰ.append_left ns old)
      ]
    ];
    shaded = λ b c o e i. elim (ℕ_discrete a b) [
      | yes same ↦ marks.hit c (
          subst (λ (x : ℕ). Memᴰ c (children ((link_object s a).memory x))) (sym same)
            (subst (λ (xs : List ℕ). Memᴰ c xs) (marks.same_children b) i))
      | no ne ↦ elim (Bool-cases (is_white (color_of (link_object s a) b))) [
        | inl w ↦ elim (marks.only b w) [ inl e' ↦ cc | inr (e', _, _) ↦ cc ]
        | inr n ↦ stays_colored c (
            h.shaded b c (older b ne o) (sym (linked_other b ne) ∙ sym (marks.kept b n) ∙ e)
              (subst (λ (xs : List ℕ). Memᴰ c xs) (marks.same_children b ∙ linked-children b) i))
      ]
    ];
  }

-- The state once a new object is linked and scanned
abbrev pub scan : Collector → ℕ → Collector
scan s a = propagate_all (mark_children (link_object s a) a)

-- Marking takes no object out of the list, changes no owner and no phase, and makes nothing white.
propagate-kept :
    (s : Collector) (a : ℕ)
    → is_white (color_of s a) ≡ false
    → ((propagate_all s).all_objects ≡ s.all_objects)
      × (((propagate_all s).memory a).owned ≡ (s.memory a).owned)
      × ((propagate_all s).incremental_phase ≡ s.incremental_phase)
      × (is_white (color_of (propagate_all s) a) ≡ false)
propagate-kept s a dark =
    propagate_rule
      (λ t.
        (t.all_objects ≡ s.all_objects)
        × ((t.memory a).owned ≡ (s.memory a).owned)
        × (t.incremental_phase ≡ s.incremental_phase)
        × (is_white (color_of t a) ≡ false))
      (λ obj t u r h. (
        r.same_objects ∙ h.0,
        ap (λ (o : Object). o.owned) (r.same_fields a) ∙ h.1,
        r.same_phase ∙ h.2,
        elim (ℕ_discrete a obj) [
          | yes e ↦
              subst (λ (x : ℕ). is_white (color_of u x) ≡ false) (sym e) (ap is_white r.blackened)
          | no ne ↦ ap is_white (r.kept a ne h.3) ∙ h.3
        ],
      ))
      usize_max s (refl, refl, refl, dark)

module _ (s : Collector) (a : ℕ) (running : is_pause s.incremental_phase ≡ false) where
  linked-owned : ((link_object s a).memory a).owned ≡ true
  unfolding link_object
  linked-owned = ap (λ (o : Object). o.owned) (update_self s.memory a a _ refl)

  linked-phase : (link_object s a).incremental_phase ≡ s.incremental_phase
  unfolding link_object
  linked-phase = refl

  -- The new object after the scan
  scan-kept :
      ((scan s a).all_objects ≡ a ∷ s.all_objects)
      × (((scan s a).memory a).owned ≡ true)
      × ((scan s a).incremental_phase ≡ s.incremental_phase)
      × (is_white (color_of (scan s a) a) ≡ false)
  scan-kept =
      let m = marks s a running in
      let d = ap is_white (linked_self s a running a refl) in
      let (objects, owner, phase, dark) =
        propagate-kept (mark_children (link_object s a) a) a (ap is_white (m.kept a d) ∙ d) in
      (
        objects ∙ m.same_objects ∙ linked-objects s a running,
        owner ∙ ap (λ (o : Object). o.owned) (m.same_fields a) ∙ linked-owned,
        phase ∙ m.same_phase ∙ linked-phase,
        dark,
      )

-- The scan of a new object has put a weak table on the list while the collector sweeps.
abbrev pub must_restart : Collector → ℕ → Bool
must_restart s a =
    is_sweep s.incremental_phase && ltb (length s.weak_tables) (length (scan s a).weak_tables)

-- What registering leaves of a new object and of the cycle
abbrev pub Registered : Collector → ℕ → Collector → Type 0
Registered s a t =
    ((s.memory a).owned ≡ false)
    × (t.all_objects ≡ a ∷ s.all_objects)
    × ((t.memory a).owned ≡ true)
    × ((must_restart s a ≡ false)
          × Tricolor t
          × (t.incremental_phase ≡ s.incremental_phase)
          × (is_white (color_of t a) ≡ false)
        ⊎ (must_restart s a ≡ true) × (t.incremental_phase ≡ pause) × (t.gray_list ≡ []))

-- During a cycle in which the invariant holds, an object that is registered already changes
-- nothing. A new one stands at the head of the list afterwards, and is owned. Where the collector
-- sweeps and the scan of the object has found a weak table, the cycle is abandoned; otherwise the
-- phase stays, the invariant holds and the object is not white.
pub register_object-Tricolor :
    (s : Collector) (a : ℕ)
    → is_pause s.incremental_phase ≡ false
    → Tricolor s
    → ((s.memory a).owned ≡ true) × (register_object s a ≡ s) ⊎ Registered s a (register_object s a)
unfolding register_object reset_incremental_cycle
register_object-Tricolor s a running h = elim (Bool-cases (s.memory a).owned) [
  | inl e ↦ inl (e, rw e refl)
  | inr e ↦
      let (objects, owner, phase, dark) = scan-kept s a running in
      let found = ltb (length s.weak_tables) (length (scan s a).weak_tables) in
      let same = ap (λ (p : IncrementalPhase). is_sweep p && found) phase in
      elim (Bool-cases (must_restart s a)) [
        | inl restart ↦
            let done : register_object s a ≡ reset_incremental_cycle (scan s a) =
              rw (e, running, same ∙ restart) refl in
            inr (subst (Registered s a) (sym done) (e, objects, owner, inr (restart, refl, refl)))
        | inr go ↦
            let done : register_object s a ≡ scan s a = rw (e, running, same ∙ go) refl in
            let inv =
              propagate_marks-Tricolor usize_max (scanned s a running)
                (scanned-Tricolor s a running h) in
            inr (subst (Registered s a) (sym done) (e, objects, owner, inl (go, inv, phase, dark)))
      ]
]
