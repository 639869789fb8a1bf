-- ===== src/Gc/Cleared.antt =====
-- What clearing does to the weak tables (src/gc/gc_weak.cpp).
use mathlib.Core.List.{Memᴰ}
use mathlib.Core.List.Memᴰ
use lua.Prelude.{
  ℕ, ◌≡◌, ◌⊎◌, inl, inr, refl, Bool, true, false, List, [], ◌∷◌, ◌∙◌, sym, subst, ap, Bool-cases,
  arith, ◌==◌, if◌then◌else◌, not, ◌&&◌,
}
use lua.Gc.Heap.{Reference, element, no_object, WeakMode, Object, Collector, is_white}
use lua.Gc.Objects.{contains}
use lua.Gc.Weak.{
  is_object_dead, remaining_references, clear_weak_table, clear_weak_tables,
  clear_weak_table_entries,
}
use lua.Gc.Clearing.{clear-Cleared}
use lua.Gc.Leftover.{Live, Settled, weakly_held, remaining-Live, remaining-kept, nothing-Live}

-- Of each table, what it refers to later it referred to before, or it is nothing, and what was
-- settled stays.
record Steady (s t : Collector) : Type 0 where
  same_dead : (b : ℕ) → is_object_dead t b ≡ is_object_dead s b
  same_bits : (b : ℕ) → (t.memory b).weak_bits ≡ (s.memory b).weak_bits
  same_pending : t.pending_finalizers ≡ s.pending_finalizers
  came :
      (a : ℕ) (r : Reference)
      → Memᴰ r (t.memory a).references
      → Memᴰ r (s.memory a).references ⊎ (r ≡ element no_object)
  stays :
      (a : ℕ) (r : Reference)
      → Settled s (s.memory a).weak_bits r
      → Memᴰ r (s.memory a).references
      → Memᴰ r (t.memory a).references

Steady-refl : (s : Collector) → Steady s s
Steady-refl s = record {
  same_dead = λ b. refl;
  same_bits = λ b. refl;
  same_pending = refl;
  came = λ a r i. inl i;
  stays = λ a r h i. i;
}

Settled-later :
    (s t : Collector)
    → Steady s t
    → (a : ℕ) (r : Reference) → Settled s (s.memory a).weak_bits r
    → Settled t (t.memory a).weak_bits r
Settled-later s t h a r settled b i =
    let (alive, idle) = settled b (subst (λ w. Memᴰ b (weakly_held w r)) (h.same_bits a) i) in
    (h.same_dead b ∙ alive, ap (λ xs. contains xs b) h.same_pending ∙ idle)

Steady-trans : (s t u : Collector) → Steady s t → Steady t u → Steady s u
Steady-trans s t u h k = record {
  same_dead = λ b. k.same_dead b ∙ h.same_dead b;
  same_bits = λ b. k.same_bits b ∙ h.same_bits b;
  same_pending = k.same_pending ∙ h.same_pending;
  came = λ a r i. elim (k.came a r i) [ inl j ↦ h.came a r j | inr e ↦ inr e ];
  stays = λ a r settled i. k.stays a r (Settled-later s t h a r settled) (h.stays a r settled i);
}

-- All that a table holds weakly is alive.
abbrev HoldsLive : Collector → ℕ → Type 0
HoldsLive s a = (r : Reference) → Memᴰ r (s.memory a).references → Live s (s.memory a).weak_bits r

Live-later :
    (s t : Collector)
    → Steady s t
    → (a : ℕ) (r : Reference) → Live s (s.memory a).weak_bits r
    → Live t (t.memory a).weak_bits r
Live-later s t h a r live b i =
    h.same_dead b ∙ live b (subst (λ w. Memᴰ b (weakly_held w r)) (h.same_bits a) i)

HoldsLive-later : (s t : Collector) → Steady s t → (a : ℕ) → HoldsLive s a → HoldsLive t a
HoldsLive-later s t h a live r i = elim (h.came a r i) [
  | inl j ↦ Live-later s t h a r (live r j)
  | inr e ↦ subst (Live t (t.memory a).weak_bits) (sym e) (nothing-Live t (t.memory a).weak_bits)
]

came_from :
    (s : Collector) (w : WeakMode) (dead : Bool) (rs : List Reference) (r : Reference)
    → Memᴰ r (if dead then rs else remaining_references s w rs)
    → Memᴰ r rs ⊎ (r ≡ element no_object)
came_from s w true rs r i = inl i
came_from s w false rs r i = (remaining-Live s w rs r i).1

stays_in :
    (s : Collector) (w : WeakMode) (dead : Bool) (rs : List Reference) (r : Reference)
    → Settled s w r
    → Memᴰ r rs
    → Memᴰ r (if dead then rs else remaining_references s w rs)
stays_in s w true rs r h i = i
stays_in s w false rs r h i = remaining-kept s w rs r h i

clear-Steady : (s : Collector) (x : ℕ) → Steady s (clear_weak_table s x)
clear-Steady s x =
    let c = clear-Cleared s x in
    let w = (s.memory x).weak_bits in
    let refs = (s.memory x).references in
    let t = clear_weak_table s x in
    record {
      same_dead = λ b. ap (λ (o : Object). not o.fixed && is_white o.color) (c.same_look b);
      same_bits = λ b. ap (λ (o : Object). o.weak_bits) (c.same_look b);
      same_pending = c.same_queue;
      came = λ a r i. elim (Bool-cases (x == a)) [
        | inl e ↦
            let same : x ≡ a = ground arith in
            subst
              (λ y.
                Memᴰ r (t.memory y).references
                → Memᴰ r (s.memory y).references ⊎ (r ≡ element no_object))
              same (λ j. came_from s w (is_object_dead s x) refs r (subst (Memᴰ r) c.new j)) i
        | inr e ↦ inl (subst (Memᴰ r) (c.others a (λ d. ground arith)) i)
      ];
      stays = λ a r h i. elim (Bool-cases (x == a)) [
        | inl e ↦
            let same : x ≡ a = ground arith in
            subst
              (λ y.
                Settled s (s.memory y).weak_bits r
                → Memᴰ r (s.memory y).references
                → Memᴰ r (t.memory y).references)
              same
              (λ k j. subst (Memᴰ r) (sym c.new) (stays_in s w (is_object_dead s x) refs r k j)) h i
        | inr e ↦ subst (Memᴰ r) (sym (c.others a (λ d. ground arith))) i
      ];
    }

-- The table that is cleared holds nothing dead.
clear-HoldsLive :
    (s : Collector) (x : ℕ) → is_object_dead s x ≡ false → HoldsLive (clear_weak_table s x) x
clear-HoldsLive s x alive r i =
    let c = clear-Cleared s x in
    let w = (s.memory x).weak_bits in
    let j =
      subst
        (λ d.
          Memᴰ r (
            if d
            then (s.memory x).references
            else remaining_references s w (s.memory x).references))
        alive (subst (Memᴰ r) c.new i) in
    Live-later s (clear_weak_table s x) (clear-Steady s x) x r
      ((remaining-Live s w (s.memory x).references r j).0)

clear_all-Steady : (xs : List ℕ) (s : Collector) → Steady s (clear_weak_tables s xs)
unfolding clear_weak_tables
clear_all-Steady [] s = Steady-refl s
clear_all-Steady (x ∷ xs) s =
    let t = clear_weak_table s x in
    Steady-trans s t (clear_weak_tables t xs) (clear-Steady s x) (clear_all-Steady xs t)

clear_all-HoldsLive :
    (xs : List ℕ) (s : Collector) (a : ℕ)
    → Memᴰ a xs
    → is_object_dead s a ≡ false
    → HoldsLive (clear_weak_tables s xs) a
unfolding clear_weak_tables
clear_all-HoldsLive [] s a i alive = absurd (Memᴰ.not-nil i)
clear_all-HoldsLive (x ∷ xs) s a i alive =
    let t = clear_weak_table s x in
    elim (Memᴰ.cases_cons i) [
      | inl e ↦
          let here = subst (λ y. is_object_dead s y ≡ false) e alive in
          let live = subst (HoldsLive t) (sym e) (clear-HoldsLive s x here) in
          HoldsLive-later t (clear_weak_tables t xs) (clear_all-Steady xs t) a live
      | inr j ↦ clear_all-HoldsLive xs t a j ((clear-Steady s x).same_dead a ∙ alive)
    ]

-- After the clearing, a weak table that is not dead holds no dead object weakly, and it still holds
-- each reference whose weakly held objects are neither dead nor in line for a finalizer.
pub clear-no_dead :
    (s : Collector) (a : ℕ)
    → Memᴰ a s.weak_tables
    → is_object_dead s a ≡ false
    → ((r : Reference)
        → Memᴰ r ((clear_weak_table_entries s).memory a).references
        → (b : ℕ) → Memᴰ b (weakly_held (s.memory a).weak_bits r)
        → is_object_dead (clear_weak_table_entries s) b ≡ false)
      × ((r : Reference)
          → Settled s (s.memory a).weak_bits r
          → Memᴰ r (s.memory a).references
          → Memᴰ r ((clear_weak_table_entries s).memory a).references)
unfolding clear_weak_table_entries
clear-no_dead s a i alive =
    let steady = clear_all-Steady s.weak_tables s in
    (
      λ r j b k.
          clear_all-HoldsLive s.weak_tables s a i alive r j b
            (subst (λ w. Memᴰ b (weakly_held w r)) (sym (steady.same_bits a)) k),
      λ r settled j. steady.stays a r settled j,
    )
