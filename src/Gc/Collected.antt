-- ===== src/Gc/Collected.antt =====
-- What is left after a sweep, and after a mark and a sweep (src/gc/gc_sweep.cpp,
-- garbage_collector.cpp).
use mathlib.Core.List.{Memᴰ}
use lua.Prelude.{
  ℕ, ◌≤◌, ◌≡◌, ◌≢◌, ◌⊎◌, inl, inr, refl, Bool, true, false, List, [], ap, ◌∙◌, sym, subst, length,
}
use lua.Table.Nodes.{usize_max}
use lua.Gc.Heap.{Collector, Object, is_white, is_thread, is_upval, color_of}
use lua.Gc.Marking.{mark}
use lua.Gc.Sweep.{Fate, passed, kept, freed, sweep, sweep_matching, is_open_upvalue, is_other}
use lua.Gc.Tricolor.{Tricolor}
use lua.Gc.Live.{Reach}
use lua.Gc.Marked.{WellFormed, mark_reached, mark_fields, mark-Tricolor}
use lua.Gc.Frames.{Frame, HasUpvalues}
use lua.Gc.Passes.{Unrepeated, retained, Mem-retained, retained_only, retained-Unrepeated}
use lua.Gc.Survivors.{first, first_pass, passed-cases, freed-cases}
use lua.Gc.SecondPass.{other_lem, not_both, open_before, second, second_pass}

Fate-cases : (f : Fate) → (f ≡ freed) ⊎ (f ≢ freed)
Fate-cases passed = inr (λ e. cc)
Fate-cases kept = inr (λ e. cc)
Fate-cases freed = inl refl

-- Why an object stays
abbrev pub Spared : Object → Type 0
Spared o = (is_white o.color ≡ false) ⊎ ((o.fixed ≡ true) ⊎ (is_open_upvalue o ≡ true))

module _ (room : List ℕ → Bool) (s : Collector) (inv : Tricolor s) (ups : HasUpvalues s)
    (once : Unrepeated s.all_objects) where
  abbrev middle : Collector
  middle = record (sweep_matching room is_thread s.all_objects s).0 {
    all_objects = (sweep_matching room is_thread s.all_objects s).1;
  }

  abbrev result : List ℕ
  result = (sweep room s).0.all_objects

  left_first : middle.all_objects ≡ retained (first s) s.all_objects
  left_first = (first_pass room s inv ups once).1

  between : Frame [] s middle
  between =
      let h = (first_pass room s inv ups once).0 in
      record {
        types = h.types;
        pinned = h.pinned;
        pointers = h.pointers;
        upvalues = h.upvalues;
        closed = h.closed;
        colors = h.colors;
      }

  left_second : result ≡ retained (second middle) (retained (first s) s.all_objects)
  unfolding sweep
  left_second =
      ap (λ (xs : List ℕ). (sweep_matching room is_other xs middle).1) left_first
      ∙ second_pass room middle (retained (first s) s.all_objects)
          (retained-Unrepeated (first s) s.all_objects once)

  -- An object that both passes leave is spared.
  spared : (b : ℕ) → first s b ≢ freed → second middle b ≢ freed → Spared (s.memory b)
  spared b h h' = elim (passed-cases is_thread (s.memory b) h) [
    | inr why ↦ why
    | inl plain ↦
        let color = between.colors b (inr plain) in
        elim (passed-cases is_other (middle.memory b) h') [
          | inl e ↦
              absurd (not_both (s.memory b).type_ plain (ap is_other (sym (between.types b)) ∙ e))
          | inr (inl w) ↦ inl (ap is_white (sym color) ∙ w)
          | inr (inr (inl f)) ↦ inr (inl (sym (between.pinned b) ∙ f))
          | inr (inr (inr u)) ↦ inr (
              inr
                (open_before (s.memory b) (middle.memory b) (between.types b) (between.closed b) u))
        ]
  ]

  gone_white :
      (b : ℕ)
      → second middle b ≡ freed
      → (is_white (color_of s b) ≡ true) × ((s.memory b).fixed ≡ false)
  gone_white b e =
      let (other, w, f) = freed-cases is_other (middle.memory b) e in
      let plain : is_thread (s.memory b).type_ ≡ false =
        other_lem _ (ap is_other (sym (between.types b)) ∙ other) in
      (ap is_white (sym (between.colors b (inr plain))) ∙ w, sym (between.pinned b) ∙ f)

  outcome :
      (b : ℕ)
      → Memᴰ b s.all_objects
      → Memᴰ b result × Spared (s.memory b)
        ⊎ (¬ Memᴰ b result) × (is_white (color_of s b) ≡ true) × ((s.memory b).fixed ≡ false)
  outcome b o = elim (Fate-cases (first s b)) [
    | inl e ↦
        let (_, w, f) = freed-cases is_thread (s.memory b) e in
        inr (
          λ i.
              (retained_only (first s) s.all_objects b
                  (retained_only (second middle) _ b
                    (subst (λ (xs : List ℕ). Memᴰ b xs) left_second i)).0).1
                e,
          w,
          f,
        )
    | inr h ↦ elim (Fate-cases (second middle b)) [
      | inl e ↦
          let (w, f) = gone_white b e in
          inr (
            λ i.
                (retained_only (second middle) _ b
                    (subst (λ (xs : List ℕ). Memᴰ b xs) left_second i)).1
                  e,
            w,
            f,
          )
      | inr h' ↦ inl (
        subst (λ (xs : List ℕ). Memᴰ b xs) (sym left_second)
            (Mem-retained (second middle) _ b (Mem-retained (first s) s.all_objects b o h) h'),
        spared b h h',
      )
    ]
  ]

-- On a heap where the tri-colour invariant holds, the open upvalues of threads are upvalues of the
-- heap and no object is listed twice, a sweep leaves an object in the list, and then it is not
-- white, fixed or an open upvalue, or takes it out, and then it is white and not fixed. This holds
-- whatever upvalues the destructors of threads close on the way.
pub sweep_outcome :
    (room : List ℕ → Bool) (s : Collector)
    → Tricolor s
    → HasUpvalues s
    → Unrepeated s.all_objects
    → (b : ℕ) → Memᴰ b s.all_objects
    → Memᴰ b (sweep room s).0.all_objects × Spared (s.memory b)
      ⊎ (¬ Memᴰ b (sweep room s).0.all_objects)
        × (is_white (color_of s b) ≡ true)
        × ((s.memory b).fixed ≡ false)
sweep_outcome = outcome

mark-HasUpvalues : (shared : List ℕ) (s : Collector) → HasUpvalues s → HasUpvalues (mark shared s)
mark-HasUpvalues shared s ups a u o i =
    let (objects, fields) = mark_fields shared s in
    let (up, ours) =
      ups a u (subst (λ (xs : List ℕ). Memᴰ a xs) objects o)
        (subst (λ (xs : List ℕ). Memᴰ u xs) (ap (λ (x : Object). x.open_upvalues) (fields a)) i) in
    (
      ap (λ (x : Object). is_upval x.type_) (fields u) ∙ up,
      subst (λ (xs : List ℕ). Memᴰ u xs) (sym objects) ours,
    )

-- On a well-formed heap with at most `usize_max` objects, no object listed twice, a mark and a
-- sweep leave an object, and then the roots reach it, it is fixed or an open upvalue, or free it,
-- and then the roots do not reach it and it is not fixed.
pub mark-sweep :
    (room : List ℕ → Bool) (shared : List ℕ) (s : Collector)
    → WellFormed shared s
    → HasUpvalues s
    → Unrepeated s.all_objects
    → length s.all_objects ≤ usize_max
    → (b : ℕ) → Memᴰ b s.all_objects
    → Memᴰ b (sweep room (mark shared s)).0.all_objects
        × (Reach shared s b ⊎ (((s.memory b).fixed ≡ true) ⊎ (is_open_upvalue (s.memory b) ≡ true)))
      ⊎ (¬ Memᴰ b (sweep room (mark shared s)).0.all_objects)
        × (¬ Reach shared s b)
        × ((s.memory b).fixed ≡ false)
mark-sweep room shared s wf ups once fits b o =
    let t = mark shared s in
    let (objects, fields) = mark_fields shared s in
    let ups' = mark-HasUpvalues shared s ups in
    let once' = subst Unrepeated (sym objects) once in
    elim (sweep_outcome room t (mark-Tricolor shared s) ups' once' b
      (subst (λ (xs : List ℕ). Memᴰ b xs) (sym objects) o)) [
        | inl (i, why) ↦ inl (
          i,
          elim why [
            | inl n ↦ elim ((mark_reached shared s wf fits).1 b o) [
              | inl (_, r) ↦ inl r
              | inr (w, _) ↦ let w' = ap is_white w in cc
            ]
            | inr (inl f) ↦ inr (inl (ap (λ (x : Object). x.fixed) (sym (fields b)) ∙ f))
            | inr (inr u) ↦ inr (inr (ap is_open_upvalue (sym (fields b)) ∙ u))
          ],
        )
        | inr (out, w, f) ↦ inr (
          out,
          elim ((mark_reached shared s wf fits).1 b o) [
            | inl (e, _) ↦ let e' = ap is_white e in cc
            | inr (_, n) ↦ n
          ],
          ap (λ (x : Object). x.fixed) (sym (fields b)) ∙ f,
        )
      ]
