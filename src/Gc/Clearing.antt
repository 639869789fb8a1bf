-- ===== src/Gc/Clearing.antt =====
-- What clearing changes of one weak table, and of its accounted size (src/gc/gc_weak.cpp).

use lua.Prelude.{
  ℕ, ◌≡◌, ◌≢◌, inl, inr, refl, Bool, true, false, List, [], ◌∙◌, sym, subst, ap, Bool-cases, ltb,
  if◌then◌else◌, not,
}
use lua.Gc.Heap.{Reference, WeakMode, Object, Collector, is_weak, update}
use lua.Gc.Objects.{account_object_size_change}
use lua.Gc.Weak.{is_object_dead, remaining_references, remove_weak_entries, clear_weak_table}
use lua.Gc.Shades.{field-update, update_self, update-other}
use lua.Gc.Leftover.{remaining-strong}

-- An object without its size, and without what it refers to
abbrev view : Object → Object
view o = record o { accounted_size = 0 }

abbrev look : Object → Object
look o = record o { accounted_size = 0; references = [] }

either {ℓ} : {A : Type ℓ} (p : A → Type 0) (b : Bool) {x y : A} → p x → p y → p (if b then x else y)
either p true h k = h
either p false h k = k

account-fields :
    (s : Collector) (a : ℕ)
    → ((b : ℕ) → view ((account_object_size_change s a).memory b) ≡ view (s.memory b))
      × ((account_object_size_change s a).pending_finalizers ≡ s.pending_finalizers)
unfolding account_object_size_change
account-fields s a =
    let o = s.memory a in
    let p : Collector → Type 0 = λ t.
      ((b : ℕ) → view (t.memory b) ≡ view (s.memory b))
      × (t.pending_finalizers ≡ s.pending_finalizers) in
    let same : (b : ℕ) → _ =
      λ b. field-update view s.memory a b (record o { accounted_size = o.size }) refl in
    either p (not o.owned) ((λ b. refl), refl)
      (either p (ltb o.accounted_size o.size) (same, refl)
        (either p (ltb o.size o.accounted_size) (same, refl) (same, refl)))

-- The new state has the objects of the old one but for what a table refers to.
pub record Cleared (a : ℕ) (refs : List Reference) (s t : Collector) : Type 0 where
  pub same_look : (b : ℕ) → look (t.memory b) ≡ look (s.memory b)
  pub same_queue : t.pending_finalizers ≡ s.pending_finalizers
  pub new : (t.memory a).references ≡ refs
  pub others : (b : ℕ) → a ≢ b → (t.memory b).references ≡ (s.memory b).references

unchanged : (s : Collector) (a : ℕ) → Cleared a (s.memory a).references s s
unchanged s a = record {
  same_look = λ b. refl;
  same_queue = refl;
  new = refl;
  others = λ b e. refl;
}

replaced :
    (s : Collector) (a : ℕ) (refs : List Reference)
    → Cleared a refs s (
        account_object_size_change
          (record s { memory = update s.memory a (record (s.memory a) { references = refs }) })
          a)
replaced s a refs =
    let o : Object = record (s.memory a) { references = refs } in
    let u : Collector = record s { memory = update s.memory a o } in
    record {
      same_look = λ b. ap look ((account-fields u a).0 b) ∙ field-update look s.memory a b o refl;
      same_queue = (account-fields u a).1;
      new =
          ap (λ (x : Object). x.references) ((account-fields u a).0 a)
          ∙ ap (λ (x : Object). x.references) (update_self s.memory a a o refl);
      others = λ b e.
          ap (λ (x : Object). x.references) ((account-fields u a).0 b)
          ∙ ap (λ (x : Object). x.references) (update-other s.memory a b o e);
    }

remove-Cleared :
    (s : Collector) (a : ℕ) (w : WeakMode)
    → Cleared a (remaining_references s w (s.memory a).references) s (remove_weak_entries s a w)
unfolding remove_weak_entries
remove-Cleared s a w = elim (Bool-cases (is_weak w)) [
  | inl e ↦ rw e (replaced s a (remaining_references s w (s.memory a).references))
  | inr e ↦ rw e (
      subst (λ rs. Cleared a rs s s) (sym (remaining-strong s w (s.memory a).references e))
        (unchanged s a))
]

pub clear-Cleared :
    (s : Collector) (a : ℕ)
    → Cleared a
        (if is_object_dead s a
          then (s.memory a).references
          else remaining_references s (s.memory a).weak_bits (s.memory a).references)
        s
        (clear_weak_table s a)
unfolding clear_weak_table
clear-Cleared s a = elim (Bool-cases (is_object_dead s a)) [
  | inl e ↦ rw e (unchanged s a)
  | inr e ↦ rw e (remove-Cleared s a (s.memory a).weak_bits)
]
