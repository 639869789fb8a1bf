-- ===== src/Gc/Leftover.antt =====
-- What clearing leaves of the references of one weak table (src/gc/gc_weak.cpp, src/core/table.cpp).
use mathlib.Core.List.{Memᴰ}
use mathlib.Core.List.Memᴰ
use lua.Prelude.{
  ℕ, ◌≡◌, ◌⊎◌, inl, inr, refl, Bool, true, false, List, [], ◌∷◌, ◌++◌, sym, subst, ap, Bool-cases,
  if◌then◌else◌, ◌&&◌, ◌||◌,
}
use lua.Gc.Heap.{
  Cell, no_object, text, object, Reference, strong, element, entry, WeakMode, Collector, is_weak,
  is_userdata,
}
use lua.Gc.Objects.{contains}
use lua.Gc.Weak.{
  is_object_dead, is_value_dead, is_weak_value_dead, remaining_reference, remaining_references,
}

abbrev pub held : Bool → Cell → List ℕ
held weak no_object = []
held weak (text a) = []
held weak (object a) = if weak then a ∷ [] else []

-- The objects that a reference of a table with the given weak mode does not keep alive
abbrev pub weakly_held : WeakMode → Reference → List ℕ
weakly_held w (strong a) = []
weakly_held w (element v) = held w.values v
weakly_held w (entry k v) = held w.keys k ++ held w.values v

-- What a reference holds weakly is alive.
abbrev pub Live : Collector → WeakMode → Reference → Type 0
Live s w r = (b : ℕ) → Memᴰ b (weakly_held w r) → is_object_dead s b ≡ false

-- ... and waits for no finalizer.
abbrev pub Settled : Collector → WeakMode → Reference → Type 0
Settled s w r =
    (b : ℕ)
    → Memᴰ b (weakly_held w r)
    → (is_object_dead s b ≡ false) × (contains s.pending_finalizers b ≡ false)

or_false : (p q : Bool) → (p || q) ≡ false → (p ≡ false) × (q ≡ false)
or_false true q e = cc
or_false false q e = (refl, e)

-- A weak value that is not dead is alive.
value-alive :
    (s : Collector) (v : Cell) → is_weak_value_dead s v ≡ false → is_value_dead s v ≡ false
value-alive s no_object e = refl
value-alive s (text a) e = refl
value-alive s (object a) e = (or_false _ (is_object_dead s a) e).1

held-alive :
    (s : Collector) (weak : Bool) (v : Cell)
    → (weak && is_value_dead s v) ≡ false
    → (b : ℕ) → Memᴰ b (held weak v)
    → is_object_dead s b ≡ false
held-alive s weak no_object e b i = absurd (Memᴰ.not-nil i)
held-alive s weak (text a) e b i = absurd (Memᴰ.not-nil i)
held-alive s true (object a) e b i =
    subst (λ x. is_object_dead s x ≡ false) (sym (Memᴰ.eq_of_singleton i)) e
held-alive s false (object a) e b i = absurd (Memᴰ.not-nil i)

weak-alive :
    (s : Collector) (weak : Bool) (v : Cell)
    → (weak && is_weak_value_dead s v) ≡ false
    → (weak && is_value_dead s v) ≡ false
weak-alive s true v e = value-alive s v e
weak-alive s false v e = refl

idle-value :
    (s : Collector) (a : ℕ)
    → is_object_dead s a ≡ false
    → contains s.pending_finalizers a ≡ false
    → is_weak_value_dead s (object a) ≡ false
idle-value s a alive idle = elim (Bool-cases (is_userdata (s.memory a).type_)) [
  | inl e ↦ rw (e, idle) alive
  | inr e ↦ rw e alive
]

-- A cell that holds nothing dead, nor what waits for a finalizer, is dead to no test.
held-kept :
    (s : Collector) (weak : Bool) (v : Cell)
    → ((b : ℕ)
        → Memᴰ b (held weak v)
        → (is_object_dead s b ≡ false) × (contains s.pending_finalizers b ≡ false))
    → ((weak && is_value_dead s v) ≡ false) × ((weak && is_weak_value_dead s v) ≡ false)
held-kept s true no_object h = (refl, refl)
held-kept s true (text a) h = (refl, refl)
held-kept s true (object a) h =
    let (alive, idle) = h a (Memᴰ.head refl) in (alive, idle-value s a alive idle)
held-kept s false v h = (refl, refl)

pub nothing-Live : (s : Collector) (w : WeakMode) → Live s w (element no_object)
nothing-Live s w b i = absurd (Memᴰ.not-nil i)

-- What is left of one reference is live, and is the reference or nothing.
remaining_reference-Live :
    (s : Collector) (w : WeakMode) (q r : Reference)
    → Memᴰ r (remaining_reference s w q)
    → Live s w r × ((r ≡ q) ⊎ (r ≡ element no_object))
remaining_reference-Live s w (strong a) r i =
    let e = Memᴰ.eq_of_singleton i in
    (subst (Live s w) (sym e) (λ b j. absurd (Memᴰ.not-nil j)), inl e)
remaining_reference-Live s w (element v) r i =
    elim (Bool-cases (w.values && is_weak_value_dead s v)) [
      | inl dead ↦
          let j = subst (λ d. Memᴰ r ((if d then element no_object else element v) ∷ [])) dead i in
          let e = Memᴰ.eq_of_singleton j in (subst (Live s w) (sym e) (nothing-Live s w), inr e)
      | inr dead ↦
          let j = subst (λ d. Memᴰ r ((if d then element no_object else element v) ∷ [])) dead i in
          let e = Memᴰ.eq_of_singleton j in
          let live = held-alive s w.values v (weak-alive s w.values v dead) in
          (subst (Live s w) (sym e) live, inl e)
    ]
remaining_reference-Live s w (entry k v) r i =
    let test = (w.keys && is_value_dead s k) || (w.values && is_weak_value_dead s v) in
    elim (Bool-cases test) [
      | inl dead ↦
          absurd (Memᴰ.not-nil (subst (λ d. Memᴰ r (if d then [] else entry k v ∷ [])) dead i))
      | inr dead ↦
          let j = subst (λ d. Memᴰ r (if d then [] else entry k v ∷ [])) dead i in
          let e = Memᴰ.eq_of_singleton j in
          let (key, value) = or_false _ _ dead in
          let live : Live s w (entry k v) = λ b m. elim (Memᴰ.append_cases (held w.keys k) m) [
            | inl m' ↦ held-alive s w.keys k key b m'
            | inr m' ↦ held-alive s w.values v (weak-alive s w.values v value) b m'
          ] in
          (subst (Live s w) (sym e) live, inl e)
    ]

pub remaining-Live :
    (s : Collector) (w : WeakMode) (rs : List Reference) (r : Reference)
    → Memᴰ r (remaining_references s w rs)
    → Live s w r × (Memᴰ r rs ⊎ (r ≡ element no_object))
remaining-Live s w [] r i = absurd (Memᴰ.not-nil i)
remaining-Live s w (q ∷ rs) r i = elim (Memᴰ.append_cases (remaining_reference s w q) i) [
  | inl j ↦
      let (live, from) = remaining_reference-Live s w q r j in
      (live, elim from [ inl e ↦ inl (Memᴰ.head e) | inr e ↦ inr e ])
  | inr j ↦
      let (live, from) = remaining-Live s w rs r j in
      (live, elim from [ inl m ↦ inl (Memᴰ.tail m) | inr e ↦ inr e ])
]

-- A settled reference stays.
settled-stays :
    (s : Collector) (w : WeakMode) (r : Reference)
    → Settled s w r
    → Memᴰ r (remaining_reference s w r)
settled-stays s w (strong a) h = Memᴰ.head refl
settled-stays s w (element v) h = Memᴰ.head (rw ((held-kept s w.values v h).1) refl)
settled-stays s w (entry k v) h =
    let key = held-kept s w.keys k (λ b i. h b (Memᴰ.append_left _ i)) in
    let value = held-kept s w.values v (λ b i. h b (Memᴰ.append_right (held w.keys k) i)) in
    rw (key.0, value.1) (Memᴰ.head refl)

pub remaining-kept :
    (s : Collector) (w : WeakMode) (rs : List Reference) (r : Reference)
    → Settled s w r
    → Memᴰ r rs
    → Memᴰ r (remaining_references s w rs)
remaining-kept s w [] r h i = absurd (Memᴰ.not-nil i)
remaining-kept s w (q ∷ rs) r h i = elim (Memᴰ.cases_cons i) [
  | inl e ↦
      Memᴰ.append_left _ (subst (λ x. Memᴰ r (remaining_reference s w x)) e (settled-stays s w r h))
  | inr j ↦ Memᴰ.append_right (remaining_reference s w q) (remaining-kept s w rs r h j)
]

and-off : (p q : Bool) → p ≡ false → (p && q) ≡ false
and-off true q e = cc
and-off false q e = refl

-- Where neither keys nor values are weak, everything is left.
remaining_reference-strong :
    (s : Collector) (w : WeakMode) (r : Reference)
    → is_weak w ≡ false
    → remaining_reference s w r ≡ r ∷ []
remaining_reference-strong s w (strong a) e = refl
remaining_reference-strong s w (element v) e =
    rw (and-off w.values (is_weak_value_dead s v) ((or_false w.keys w.values e).1)) refl
remaining_reference-strong s w (entry k v) e =
    let (keys, values) = or_false w.keys w.values e in
    rw (and-off w.keys (is_value_dead s k) keys, and-off w.values (is_weak_value_dead s v) values)
      refl

pub remaining-strong :
    (s : Collector) (w : WeakMode) (rs : List Reference)
    → is_weak w ≡ false
    → remaining_references s w rs ≡ rs
remaining-strong s w [] e = refl
remaining-strong s w (r ∷ rs) e =
    rw (remaining_reference-strong s w r e) (ap (λ xs. r ∷ xs) (remaining-strong s w rs e))
