-- ===== src/Gc/Survivors.antt =====
-- What is left after a sweep (src/gc/gc_sweep.cpp).
use mathlib.Core.List.{Memᴰ}
use lua.Prelude.{
  ℕ, ◌≡◌, ◌≢◌, ◌⊎◌, inl, inr, refl, Bool, true, false, List, [], ◌∷◌, Bool-cases, arith,
}
use lua.Gc.Heap.{Collector, Object, GcObjectType, is_white, is_thread, is_upval, children}
use lua.Gc.Sweep.{Fate, passed, kept, freed, fate, act, sweep_matching, is_open_upvalue}
use lua.Gc.Tricolor.{Tricolor}
use lua.Gc.Frames.{Frame, Frame-update, HasUpvalues, destroy_object-Frame}
use lua.Gc.Passes.{Unrepeated, retained, sweep_rule}

-- What a fate tells of an object
pub passed-cases :
    (should : GcObjectType → Bool) (o : Object)
    → fate should o ≢ freed
    → (should o.type_ ≡ false)
      ⊎ ((is_white o.color ≡ false) ⊎ ((o.fixed ≡ true) ⊎ (is_open_upvalue o ≡ true)))
unfolding fate
passed-cases should o h = ground arith

pub freed-cases :
    (should : GcObjectType → Bool) (o : Object)
    → fate should o ≡ freed
    → (should o.type_ ≡ true) × (is_white o.color ≡ true) × (o.fixed ≡ false)
unfolding fate
freed-cases should o h = ground arith

kept-swept :
    (should : GcObjectType → Bool) (o : Object) → fate should o ≡ kept → should o.type_ ≡ true
unfolding fate
kept-swept should o h = ground arith

thread-not_upval : (k : GcObjectType) → is_thread k ≡ true → is_upval k ≡ false
thread-not_upval k h = ground arith

-- What the first pass does with an object
abbrev pub first : Collector → ℕ → Fate
first s a = fate is_thread (s.memory a)

module _ (room : List ℕ → Bool) (s : Collector) (inv : Tricolor s) (ups : HasUpvalues s) where
  record Ahead (rest : List ℕ) (t : Collector) : Type 0 where
    frame : Frame rest s t
    once : Unrepeated rest
    ours : (a : ℕ) → Memᴰ a rest → Memᴰ a s.all_objects

  same_fate :
      (a : ℕ) (rest : List ℕ) (t : Collector)
      → Frame (a ∷ rest) s t
      → fate is_thread (t.memory a) ≡ first s a
  unfolding fate
  same_fate a rest t h =
      let color = h.colors a (inl (Memᴰ.head refl)) in
      elim (Bool-cases (is_thread (s.memory a).type_)) [
        | inl e ↦ rw (h.types a, e, color, h.pinned a, thread-not_upval _ e) refl
        | inr e ↦ rw (h.types a, e) refl
      ]

  behind : (a : ℕ) (rest : List ℕ) (t : Collector) → Frame (a ∷ rest) s t → Frame rest s t
  behind a rest t h = record {
    types = h.types;
    pinned = h.pinned;
    pointers = h.pointers;
    upvalues = h.upvalues;
    closed = h.closed;
    colors = λ b w. elim w [ inl i ↦ h.colors b (inl (Memᴰ.tail i)) | inr n ↦ h.colors b (inr n) ];
  }

  act-Frame :
      (g : Fate) (a : ℕ) (rest : List ℕ) (t : Collector)
      → first s a ≡ g
      → (¬ Memᴰ a rest)
      → Memᴰ a s.all_objects
      → Frame (a ∷ rest) s t
      → Frame rest s (act room g t a)
  unfolding act children
  act-Frame passed a rest t e new o h = behind a rest t h
  act-Frame kept a rest t e new o h =
      Frame-update rest s t (behind a rest t h) _ a _ refl
        (record {
          type_alike = refl;
          fixed_alike = refl;
          children_alike = refl;
          upvalues_alike = refl;
          open_alike = λ x. x;
        })
        (λ still. elim still [
          | inl i ↦ absurd (new i)
          | inr n ↦ let y = kept-swept is_thread (s.memory a) e in cc
        ])
  act-Frame freed a rest t e new o h =
      destroy_object-Frame rest s inv room t a ups o (behind a rest t h)

  pub first_pass :
      Unrepeated s.all_objects
      → Frame [] s (sweep_matching room is_thread s.all_objects s).0
        × ((sweep_matching room is_thread s.all_objects s).1 ≡ retained (first s) s.all_objects)
  first_pass once =
      let (end, left) =
        sweep_rule room is_thread (first s) Ahead (λ a rest t h. same_fate a rest t h.frame)
          (λ a rest t h. record {
            frame =
                act-Frame (first s a) a rest t refl h.once.0 (h.ours a (Memᴰ.head refl)) h.frame;
            once = h.once.1;
            ours = λ b i. h.ours b (Memᴰ.tail i);
          })
          s.all_objects s
          (record {
            frame = (record {
              types = λ b. refl;
              pinned = λ b. refl;
              pointers = λ b. refl;
              upvalues = λ b. refl;
              closed = λ b e. e;
              colors = λ b w. refl;
            });
            once = once;
            ours = λ a i. i;
          }) in
      (end.frame, left)
