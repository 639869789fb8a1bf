-- ===== src/Gc/Frames.antt =====
-- What destructors and colours change while the sweep runs (src/gc/gc_sweep.cpp): the first pass.
use mathlib.Core.List.{Memᴰ}
use native.Mathlib.Decide.{ℕ_discrete}
use lua.Prelude.{
  ℕ, ◌≡◌, ◌⊎◌, inl, inr, refl, Bool, true, false, List, [], ◌∷◌, Option, none, some, ap, ◌∙◌, sym,
  subst, Bool-cases, arith,
}
use lua.Gc.Heap.{
  Collector, Store, Object, GcObjectType, GcColor, gray, black, is_white, is_thread, is_upval,
  color_of, children, update,
}
use lua.Gc.Marking.{mark_object}
use lua.Gc.Objects.{
  write_barrier_deferred, forget_object, release_bytes, remove_root, reset_incremental_cycle,
}
use lua.Gc.Sweep.{announce, close_upvalue, close_upvalues, remove_hook, destroy_object}
use lua.Gc.Shades.{field-update, update_self, update-other}
use lua.Gc.Tricolor.{Tricolor}
use lua.Gc.Deferred.{Deferred, skipped, pushed, abandoned, write_barrier_deferred-Deferred}
use lua.Gc.Barriers.{needs-white, needs-black}

-- From one state of a pass over threads to a later one, with the objects still ahead: the colours
-- of these and of all that are no threads stay, and open upvalues may be closed.
pub record Frame (ahead : List ℕ) (s t : Collector) : Type 0 where
  pub types : (b : ℕ) → (t.memory b).type_ ≡ (s.memory b).type_
  pub pinned : (b : ℕ) → (t.memory b).fixed ≡ (s.memory b).fixed
  pub pointers : (b : ℕ) → children (t.memory b) ≡ children (s.memory b)
  pub upvalues : (b : ℕ) → (t.memory b).open_upvalues ≡ (s.memory b).open_upvalues
  pub closed : (b : ℕ) → (s.memory b).is_open ≡ false → (t.memory b).is_open ≡ false
  pub colors :
      (b : ℕ) → Memᴰ b ahead ⊎ (is_thread (s.memory b).type_ ≡ false) → color_of t b ≡ color_of s b

-- A new object at one address, which agrees with the old one on what the frame keeps.
pub record Alike (o o' : Object) : Type 0 where
  pub type_alike : o'.type_ ≡ o.type_
  pub fixed_alike : o'.fixed ≡ o.fixed
  pub children_alike : children o' ≡ children o
  pub upvalues_alike : o'.open_upvalues ≡ o.open_upvalues
  pub open_alike : o.is_open ≡ false → o'.is_open ≡ false

module _ (ahead : List ℕ) (s t : Collector) (h : Frame ahead s t) (u : Collector) where
  pub Frame-store : u.memory ≡ t.memory → Frame ahead s u
  Frame-store e = record {
    types = λ b. ap (λ (m : Store). (m b).type_) e ∙ h.types b;
    pinned = λ b. ap (λ (m : Store). (m b).fixed) e ∙ h.pinned b;
    pointers = λ b. ap (λ (m : Store). children (m b)) e ∙ h.pointers b;
    upvalues = λ b. ap (λ (m : Store). (m b).open_upvalues) e ∙ h.upvalues b;
    closed = λ b c. ap (λ (m : Store). (m b).is_open) e ∙ h.closed b c;
    colors = λ b c. ap (λ (m : Store). (m b).color) e ∙ h.colors b c;
  }

  module _ (a : ℕ) (o : Object) where
    -- A change of one object, whose colour may change if it is a thread that is not ahead.
    pub Frame-update :
        u.memory ≡ update t.memory a o
        → Alike (t.memory a) o
        → (Memᴰ a ahead ⊎ (is_thread (s.memory a).type_ ≡ false) → o.color ≡ color_of t a)
        → Frame ahead s u
    Frame-update e k c = record {
      types = λ b. field (λ (x : Object). x.type_) k.type_alike b ∙ h.types b;
      pinned = λ b. field (λ (x : Object). x.fixed) k.fixed_alike b ∙ h.pinned b;
      pointers = λ b. field children k.children_alike b ∙ h.pointers b;
      upvalues = λ b. field (λ (x : Object). x.open_upvalues) k.upvalues_alike b ∙ h.upvalues b;
      closed = λ b n. ap (λ (m : Store). (m b).is_open) e ∙ elim (ℕ_discrete a b) [
        | yes same ↦
            ap (λ (x : Object). x.is_open) (update_self t.memory a b o same)
            ∙ k.open_alike (ap (λ (x : ℕ). (t.memory x).is_open) same ∙ h.closed b n)
        | no ne ↦ ap (λ (x : Object). x.is_open) (update-other t.memory a b o ne) ∙ h.closed b n
      ];
      colors = λ b w. ap (λ (m : Store). (m b).color) e ∙ elim (ℕ_discrete a b) [
        | yes same ↦
            ap (λ (x : Object). x.color) (update_self t.memory a b o same)
            ∙ c (
                subst (λ (x : ℕ). Memᴰ x ahead ⊎ (is_thread (s.memory x).type_ ≡ false)) (sym same)
                  w)
            ∙ ap (color_of t) same
            ∙ h.colors b w
        | no ne ↦ ap (λ (x : Object). x.color) (update-other t.memory a b o ne) ∙ h.colors b w
      ];
    }
      where
        field :
            {B : Type 0} (f : Object → B)
            → f o ≡ f (t.memory a)
            → (b : ℕ) → f (u.memory b) ≡ f (t.memory b)
        field f same b = ap (λ (m : Store). f (m b)) e ∙ field-update f t.memory a b o same

-- The open upvalues of a thread are upvalues of this collector.
abbrev pub HasUpvalues : Collector → Type 0
HasUpvalues s =
    (a u : ℕ)
    → Memᴰ a s.all_objects
    → Memᴰ u (s.memory a).open_upvalues
    → (is_upval (s.memory u).type_ ≡ true) × Memᴰ u s.all_objects

upval-not_thread : (k : GcObjectType) → is_upval k ≡ true → is_thread k ≡ false
upval-not_thread k h = ground arith

contradict : (c : GcColor) {k : GcColor} → is_white c ≡ true → c ≡ k → is_white k ≡ false → ⊥
contradict c w e n = let w' = ap is_white e in cc

module _ (ahead : List ℕ) (s : Collector) (inv : Tricolor s) where
  module _ (u : ℕ) (ours : Memᴰ u s.all_objects)
      (is_up : is_thread (s.memory u).type_ ≡ false) where
    deferred-Frame :
        {roomy : Bool} (t : Collector) (c : ℕ) (d : Collector)
        → Frame ahead s t
        → Memᴰ c (children (s.memory u))
        → Deferred t u c roomy d
        → Frame ahead s d
    unfolding mark_object reset_incremental_cycle children
    deferred-Frame t c d h i (skipped e) = h
    deferred-Frame t c d h i (pushed e able) =
        let w = needs-white t u c e in
        rw w (
          Frame-update ahead s t h _ c (record (t.memory c) { color = gray }) refl
            (record {
              type_alike = refl;
              fixed_alike = refl;
              children_alike = refl;
              upvalues_alike = refl;
              open_alike = λ x. x;
            })
            (λ still.
              let dark : color_of s u ≡ black =
                sym (h.colors u (inr is_up)) ∙ needs-black t u c e in
              let n = inv.shaded u c ours dark i in
              absurd (contradict (color_of t c) w (h.colors c still) n)))
    deferred-Frame t c d h i (abandoned e why) = Frame-store ahead s t h _ refl

    announce-Frame :
        (room : List ℕ → Bool) (cs : List ℕ) (t : Collector)
        → Frame ahead s t
        → ((c : ℕ) → Memᴰ c cs → Memᴰ c (children (s.memory u)))
        → Frame ahead s (announce room t u cs)
    unfolding announce
    announce-Frame room [] t h i = h
    announce-Frame room (c ∷ rest) t h i =
        announce-Frame room rest (write_barrier_deferred (room t.gray_list) t u c)
          (deferred-Frame t c _ h (i c (Memᴰ.head refl))
            (write_barrier_deferred-Deferred t u c (room t.gray_list)))
          (λ c' j. i c' (Memᴰ.tail j))

    close_upvalue-Frame :
        (room : List ℕ → Bool) (t : Collector)
        → Frame ahead s t
        → Frame ahead s (close_upvalue room t u)
    unfolding close_upvalue children
    close_upvalue-Frame room t h = elim (Bool-cases (t.memory u).is_open) [
      | inl e ↦
          let g =
            announce-Frame room (children (t.memory u)) t h
              (λ c i. subst (λ (xs : List ℕ). Memᴰ c xs) (h.pointers u) i) in
          rw e (
            Frame-update ahead s (announce room t u (children (t.memory u))) g _ u _ refl
              (record {
                type_alike = refl;
                fixed_alike = refl;
                children_alike = refl;
                upvalues_alike = refl;
                open_alike = λ x. refl;
              })
              (λ still. refl))
      | inr e ↦ rw e h
    ]

  close_upvalues-Frame :
      (room : List ℕ → Bool) (us : List ℕ) (t : Collector)
      → Frame ahead s t
      → ((u : ℕ) → Memᴰ u us → (is_upval (s.memory u).type_ ≡ true) × Memᴰ u s.all_objects)
      → Frame ahead s (close_upvalues room t us)
  unfolding close_upvalues
  close_upvalues-Frame room [] t h k = h
  close_upvalues-Frame room (u ∷ rest) t h k =
      let (up, ours) = k u (Memᴰ.head refl) in
      close_upvalues-Frame room rest (close_upvalue room t u)
        (close_upvalue-Frame u ours (upval-not_thread _ up) room t h) (λ v i. k v (Memᴰ.tail i))

  released-Frame :
      (t : Collector) (a : ℕ)
      → Frame ahead s t
      → Frame ahead s (release_bytes (forget_object t a) a)
  unfolding release_bytes forget_object children
  released-Frame t a h =
      Frame-update ahead s t h _ a _ refl
        (record {
          type_alike = refl;
          fixed_alike = refl;
          children_alike = refl;
          upvalues_alike = refl;
          open_alike = λ x. x;
        })
        (λ still. refl)

  hook-Frame :
      (t : Collector) (hook : Option ℕ) → Frame ahead s t → Frame ahead s (remove_hook t hook)
  unfolding remove_hook remove_root
  hook-Frame t none h = h
  hook-Frame t (some a) h = Frame-store ahead s t h _ refl

  -- Destroying an object keeps the frame.
  pub destroy_object-Frame :
      (room : List ℕ → Bool) (t : Collector) (a : ℕ)
      → HasUpvalues s
      → Memᴰ a s.all_objects
      → Frame ahead s t
      → Frame ahead s (destroy_object room t a)
  unfolding destroy_object
  destroy_object-Frame room t a ups ours h = elim (Bool-cases (is_thread (t.memory a).type_)) [
    | inl e ↦ rw e (
        hook-Frame _ (t.memory a).debug_hook (
          close_upvalues-Frame room (t.memory a).open_upvalues (release_bytes (forget_object t a) a)
            (released-Frame t a h)
            (λ u i. ups a u ours (subst (λ (xs : List ℕ). Memᴰ u xs) (h.upvalues a) i))))
    | inr e ↦ rw e (released-Frame t a h)
  ]
