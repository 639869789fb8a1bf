-- ===== src/Gc/Passes.antt =====
-- A pass of the sweep frees what its fate says, whatever the destructors do to other objects
-- (src/gc/gc_sweep.cpp).
use mathlib.Core.List.{Memᴰ}
use mathlib.Core.List.Memᴰ
use lua.Prelude.{ℕ, ◌≡◌, ◌≢◌, ◌⊎◌, inl, inr, refl, Bool, List, [], ◌∷◌, ap, ◌∙◌, sym}
use lua.Gc.Heap.{Collector, GcObjectType}
use lua.Gc.Sweep.{Fate, passed, kept, freed, fate, act, stay, sweep_matching}

-- The entries that are not freed
abbrev pub retained : (ℕ → Fate) → List ℕ → List ℕ
retained f [] = []
retained f (a ∷ rest) = stay (f a) a (retained f rest)

-- No entry stands twice in a list.
abbrev pub Unrepeated : List ℕ → Type 0
Unrepeated [] = Unit
Unrepeated (a ∷ rest) = (¬ Memᴰ a rest) × Unrepeated rest

-- Where an invariant of the objects ahead fixes each fate, a pass leaves the retained entries.
pub sweep_rule {ℓ} :
    (room : List ℕ → Bool) (should : GcObjectType → Bool) (f : ℕ → Fate)
    (I : List ℕ → Collector → Type ℓ)
    → ((a : ℕ) (rest : List ℕ) (s : Collector) → I (a ∷ rest) s → fate should (s.memory a) ≡ f a)
    → ((a : ℕ) (rest : List ℕ) (s : Collector) → I (a ∷ rest) s → I rest (act room (f a) s a))
    → (xs : List ℕ) (s : Collector) → I xs s
    → I [] (sweep_matching room should xs s).0
      × ((sweep_matching room should xs s).1 ≡ retained f xs)
unfolding sweep_matching
sweep_rule room should f I read next [] s i = (i, refl)
sweep_rule room should f I read next (a ∷ rest) s i =
    let (inv, left) =
      sweep_rule room should f I read next rest (act room (f a) s a) (next a rest s i) in
    rw (read a rest s i) (inv, ap (stay (f a) a) left)

Mem-stay : (f : Fate) (a b : ℕ) (rest : List ℕ) → Memᴰ b rest → Memᴰ b (stay f a rest)
Mem-stay passed a b rest i = Memᴰ.tail i
Mem-stay kept a b rest i = Memᴰ.tail i
Mem-stay freed a b rest i = i

Mem-stay_self : (f : Fate) (a b : ℕ) (rest : List ℕ) → f ≢ freed → b ≡ a → Memᴰ b (stay f a rest)
Mem-stay_self passed a b rest h e = Memᴰ.head e
Mem-stay_self kept a b rest h e = Memᴰ.head e
Mem-stay_self freed a b rest h e = absurd (h refl)

-- Where an entry of the list with one more comes from
stay_cases :
    (f : Fate) (a b : ℕ) (rest : List ℕ)
    → Memᴰ b (stay f a rest)
    → (b ≡ a) × (f ≢ freed) ⊎ Memᴰ b rest
stay_cases passed a b rest i = elim (Memᴰ.cases_cons i) [ inl e ↦ inl (e, λ h. cc) | inr j ↦ inr j ]
stay_cases kept a b rest i = elim (Memᴰ.cases_cons i) [ inl e ↦ inl (e, λ h. cc) | inr j ↦ inr j ]
stay_cases freed a b rest i = inr i

pub Mem-retained :
    (f : ℕ → Fate) (xs : List ℕ) (b : ℕ) → Memᴰ b xs → f b ≢ freed → Memᴰ b (retained f xs)
Mem-retained f [] b i h = absurd (Memᴰ.not-nil i)
Mem-retained f (a ∷ rest) b i h = elim (Memᴰ.cases_cons i) [
  | inl e ↦ Mem-stay_self (f a) a b (retained f rest) (λ e'. h (ap f e ∙ e')) e
  | inr j ↦ Mem-stay (f a) a b (retained f rest) (Mem-retained f rest b j h)
]

pub retained_only :
    (f : ℕ → Fate) (xs : List ℕ) (b : ℕ) → Memᴰ b (retained f xs) → Memᴰ b xs × (f b ≢ freed)
retained_only f [] b i = absurd (Memᴰ.not-nil i)
retained_only f (a ∷ rest) b i = elim (stay_cases (f a) a b (retained f rest) i) [
  | inl (e, h) ↦ (Memᴰ.head e, λ e'. h (ap f (sym e) ∙ e'))
  | inr j ↦ let (k, h) = retained_only f rest b j in (Memᴰ.tail k, h)
]

pub retained-Unrepeated : (f : ℕ → Fate) (xs : List ℕ) → Unrepeated xs → Unrepeated (retained f xs)
retained-Unrepeated f [] h = h
retained-Unrepeated f (a ∷ rest) h =
    stay-Unrepeated (f a) (λ i. h.0 (retained_only f rest a i).0) (retained-Unrepeated f rest h.1)
  where
    stay-Unrepeated :
        (g : Fate)
        → (¬ Memᴰ a (retained f rest))
        → Unrepeated (retained f rest)
        → Unrepeated (stay g a (retained f rest))
    stay-Unrepeated passed new u = (new, u)
    stay-Unrepeated kept new u = (new, u)
    stay-Unrepeated freed new u = u
