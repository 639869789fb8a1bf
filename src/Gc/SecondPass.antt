-- ===== src/Gc/SecondPass.antt =====
-- The second pass of a sweep (src/gc/gc_sweep.cpp).
use mathlib.Core.List.{Memᴰ}
use lua.Prelude.{
  ℕ, ◌≡◌, ◌≢◌, inl, inr, refl, Bool, true, false, List, ap, ◌∙◌, sym, subst, Bool-cases, arith,
}
use lua.Gc.Heap.{Collector, Object, GcObjectType, is_thread}
use lua.Gc.Objects.{release_bytes, forget_object}
use lua.Gc.Sweep.{
  Fate, passed, kept, freed, fate, act, sweep_matching, destroy_object, is_open_upvalue, is_other,
}
use lua.Gc.Shades.{update-other}
use lua.Gc.Passes.{Unrepeated, retained, sweep_rule}
use lua.Gc.Survivors.{freed-cases}

pub other_lem : (k : GcObjectType) → is_other k ≡ true → is_thread k ≡ false
other_lem k h = ground arith

pub not_both : (k : GcObjectType) → is_thread k ≡ false → is_other k ≡ false → ⊥
not_both k h h' = ground arith

-- A pass opens no upvalue.
pub open_before :
    (o o' : Object)
    → o'.type_ ≡ o.type_
    → (o.is_open ≡ false → o'.is_open ≡ false)
    → is_open_upvalue o' ≡ true
    → is_open_upvalue o ≡ true
open_before o o' same closed h = elim (Bool-cases o.is_open) [
  | inl e ↦ let h' = rw same at h in ground arith
  | inr e ↦ let e' = closed e in ground arith
]

-- What the second pass does with an object
abbrev pub second : Collector → ℕ → Fate
second s a = fate is_other (s.memory a)

-- The second pass, from the state behind the first one
module _ (room : List ℕ → Bool) (s : Collector) where
  record Untouched (rest : List ℕ) (t : Collector) : Type 0 where
    same : (b : ℕ) → Memᴰ b rest → t.memory b ≡ s.memory b
    once : Unrepeated rest

  act_others :
      (g : Fate) (a : ℕ) (t : Collector)
      → fate is_other (t.memory a) ≡ g
      → (b : ℕ) → a ≢ b
      → (act room g t a).memory b ≡ t.memory b
  unfolding act destroy_object release_bytes forget_object
  act_others passed a t e b ne = refl
  act_others kept a t e b ne = update-other t.memory a b _ ne
  act_others freed a t e b ne =
      let other : is_thread (t.memory a).type_ ≡ false =
        other_lem _ (freed-cases is_other (t.memory a) e).0 in
      rw other (update-other t.memory a b _ ne)

  pub second_pass :
      (xs : List ℕ) → Unrepeated xs → (sweep_matching room is_other xs s).1 ≡ retained (second s) xs
  second_pass xs once =
      let (end, left) =
        sweep_rule room is_other (second s) Untouched
          (λ a rest t h. ap (fate is_other) (h.same a (Memᴰ.head refl)))
          (λ a rest t h. record {
            same = λ b i.
                act_others (second s a) a t (ap (fate is_other) (h.same a (Memᴰ.head refl))) b
                  (λ e. h.once.0 (subst (λ (x : ℕ). Memᴰ x rest) (sym e) i))
                ∙ h.same b (Memᴰ.tail i);
            once = h.once.1;
          })
          xs s (record { same = λ b i. refl; once = once }) in
      left
