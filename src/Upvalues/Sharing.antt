-- ===== src/Upvalues/Sharing.antt =====
-- Closures share the open upvalue of a stack slot (src/vm/state/lua_state.cpp).
use mathlib.Core.List.{Memᴰ}
use mathlib.Core.List.Memᴰ
use lua.Prelude.{
  ℕ, ◌≡◌, ◌≢◌, ◌⊎◌, inl, inr, refl, Bool, true, List, [], ◌∷◌, ◌++◌, none, some, ◌∙◌, ap, sym,
  subst, Bool-cases, arith, ◌==◌, ◌<◌, length, if◌then◌else◌,
}
use lua.Upvalues.Cells.{
  Upvalue, LuaState, insert_upvalue, get_value, found_or_created, after_search,
  find_or_create_upvalue,
}
use lua.Upvalues.Links.{unique_index, Descending, OpenList}
use lua.Upvalues.Finding.{head_of, last_of, Cut, find_from-Cut}
use lua.Upvalues.Insertion.{middle_cases, middle_kept, insert-Descending}
use lua.Upvalues.Inserted.{core, insert-Linked, insert-stack, insert-others, insert-fresh}

module _ {ℓ} {v : Type ℓ} where
  -- What the search and the creation give: an upvalue of the list for the index, the only one for
  -- it. The upvalues of the old list stay, with their values, and a new one can only be `fresh`.
  pub record Found (fresh i : ℕ) (xs ys : List ℕ) (s t : LuaState v) (u : ℕ) : Type ℓ where
    pub list : OpenList t ys
    pub member : Memᴰ u ys
    pub at_index : (t.memory u).stack_index ≡ i
    pub shared : (w : ℕ) → Memᴰ w ys → (t.memory w).stack_index ≡ i → w ≡ u
    pub kept : (w : ℕ) → Memᴰ w xs → Memᴰ w ys
    pub only : (w : ℕ) → Memᴰ w ys → Memᴰ w xs ⊎ (w ≡ fresh)
    pub same_index : (w : ℕ) → fresh ≢ w → (t.memory w).stack_index ≡ (s.memory w).stack_index
    pub same_value : (w : ℕ) → fresh ≢ w → get_value t w ≡ get_value s w
    pub same_stack : t.stack ≡ s.stack

  -- The upvalue that the search finds is the one for the index.
  old-Found :
      (fresh i u : ℕ) (before after : List ℕ) (xs : List ℕ) (s : LuaState v)
      → OpenList s xs
      → Cut s.memory i before (u ∷ after) xs
      → (s.memory u).stack_index ≡ i
      → Found fresh i xs xs s s u
  old-Found fresh i u before after xs s h c e =
      let member = subst (Memᴰ u) (sym c.whole) (Memᴰ.append_right before (Memᴰ.head refl)) in
      record {
        list = h;
        member = member;
        at_index = e;
        shared = λ w j e'. unique_index s.memory xs h.descending w u j member (e' ∙ sym e);
        kept = λ w j. j;
        only = λ w j. inl j;
        same_index = λ w ne. refl;
        same_value = λ w ne. refl;
        same_stack = refl;
      }

  same_read :
      (s t : LuaState v) (w : ℕ)
      → core (t.memory w) ≡ core (s.memory w)
      → t.stack ≡ s.stack
      → get_value t w ≡ get_value s w
  unfolding get_value
  same_read s t w e e' =
      ap (λ (o : Upvalue v). if o.is_open then t.stack o.stack_index else o.closed_value) e
      ∙ ap
          (λ (st : ℕ → v).
            if (s.memory w).is_open then st (s.memory w).stack_index else (s.memory w).closed_value)
          e'

  -- The upvalue that is created is the only one for the index.
  new-Found :
      (nil : v) (fresh i : ℕ) (before after : List ℕ) (s : LuaState v)
      → OpenList s (before ++ after)
      → ¬ Memᴰ fresh (before ++ after)
      → ((w : ℕ) → Memᴰ w before → i < (s.memory w).stack_index)
      → ((w : ℕ) → Memᴰ w after → (s.memory w).stack_index < i)
      → Found fresh i
          (before ++ after)
          (before ++ fresh ∷ after)
          s
          (insert_upvalue nil fresh i s (last_of none before) (head_of after))
          fresh
  new-Found nil fresh i before after s h new above below =
      let t = insert_upvalue nil fresh i s (last_of none before) (head_of after) in
      let others = insert-others nil fresh i s (last_of none before) (head_of after) in
      let made = insert-fresh nil fresh i s (last_of none before) (head_of after) in
      let stack = insert-stack nil fresh i s (last_of none before) (head_of after) in
      let index : (w : ℕ) → fresh ≢ w → (t.memory w).stack_index ≡ (s.memory w).stack_index =
        λ w ne. ap (λ (o : Upvalue v). o.stack_index) (others w ne) in
      let here : (t.memory fresh).stack_index ≡ i = ap (λ (o : Upvalue v). o.stack_index) made in
      let member = Memᴰ.append_right before (Memᴰ.head {x = fresh} {xs = after} refl) in
      let order =
        insert-Descending fresh i before after s.memory t.memory h.descending above below index here
          new in
      record {
        list = record {
          linked = insert-Linked nil fresh i s before after h.linked h.descending new;
          descending = order;
          opened = λ w j. elim (middle_cases fresh w before after j) [
            | inl k ↦
                let ne : fresh ≢ w = λ e. new (subst (λ n. Memᴰ n (before ++ after)) (sym e) k) in
                ap (λ (o : Upvalue v). o.is_open) (others w ne) ∙ h.opened w k
            | inr e ↦
                subst (λ (n : ℕ). (t.memory n).is_open ≡ true) (sym e)
                  (ap (λ (o : Upvalue v). o.is_open) made)
          ];
        };
        member = member;
        at_index = here;
        shared = λ w j e.
            unique_index t.memory (before ++ fresh ∷ after) order w fresh j member (e ∙ sym here);
        kept = λ w j. middle_kept fresh w before after j;
        only = λ w j. middle_cases fresh w before after j;
        same_index = index;
        same_value = λ w ne. same_read s t w (others w ne) stack;
        same_stack = stack;
      }

  after-Descending :
      (m : ℕ → Upvalue v) (before after : List ℕ)
      → Descending m (before ++ after)
      → Descending m after
  after-Descending m [] after d = d
  after-Descending m (x ∷ before) after d = after-Descending m before after d.1

  -- What follows the search, by what stands after the cut
  outcome :
      (nil : v) (fresh i : ℕ) (before after xs : List ℕ) (s : LuaState v)
      → OpenList s xs
      → ¬ Memᴰ fresh xs
      → Cut s.memory i before after xs
      → (t : LuaState v) × (u : ℕ) × (ys : List ℕ) × (found_or_created nil fresh i s
            (last_of none before)
            (head_of after)
          ≡ (t, u))
        × Found fresh i xs ys s t u
  unfolding found_or_created
  outcome nil fresh i before [] xs s h new c = (
    insert_upvalue nil fresh i s (last_of none before) none,
    fresh,
    before ++ fresh ∷ [],
    refl,
    subst
        (λ zs.
          Found fresh i zs (before ++ fresh ∷ []) s
            (insert_upvalue nil fresh i s (last_of none before) none) fresh)
        (sym c.whole)
        (new-Found nil fresh i before [] s (subst (OpenList s) c.whole h)
          (λ j. new (subst (Memᴰ fresh) (sym c.whole) j)) c.above (λ w j. absurd (Memᴰ.not-nil j))),
  )
  outcome nil fresh i before (x ∷ after) xs s h new c =
      let made = insert_upvalue nil fresh i s (last_of none before) (some x) in
      let choice : Bool → LuaState v × ℕ = λ b. if b then (s, x) else (made, fresh) in
      elim (Bool-cases ((s.memory x).stack_index == i)) [
        | inl e ↦ (s, x, xs, ap choice e, old-Found fresh i x before after xs s h c (ground arith))
        | inr e ↦
            let d =
              after-Descending s.memory before (x ∷ after)
                (subst (Descending s.memory) c.whole h.descending) in
            let top = c.rest x (Memᴰ.head refl) in
            let low : (s.memory x).stack_index < i = ground arith in
            (
              made,
              fresh,
              before ++ fresh ∷ x ∷ after,
              ap choice e,
              subst (λ zs. Found fresh i zs (before ++ fresh ∷ x ∷ after) s made fresh)
                  (sym c.whole)
                  (new-Found nil fresh i before (x ∷ after) s (subst (OpenList s) c.whole h)
                    (λ j. new (subst (Memᴰ fresh) (sym c.whole) j)) c.above
                    (λ w j. elim (Memᴰ.cases_cons j) [
                      | inl p ↦ subst (λ (k : ℕ). (s.memory k).stack_index < i) (sym p) low
                      | inr p ↦ let less = d.0 w p in omega (arith, less, low)
                    ])),
            )
      ]

  -- For a list of open upvalues and more fuel than upvalues, and a new address that is not in the
  -- list, the search returns an open upvalue for the index. It is the only one for it in the new
  -- list, which is in order and has the old upvalues, and the value of each of these is as before.
  pub find_or_create_upvalue-Found :
      (fuel : ℕ) (nil : v) (fresh i : ℕ) (s : LuaState v) (xs : List ℕ)
      → OpenList s xs
      → ¬ Memᴰ fresh xs
      → length xs < fuel
      → (t : LuaState v) × (u : ℕ) × (ys : List ℕ) × (find_or_create_upvalue fuel nil fresh i s
          ≡ some (t, u))
        × Found fresh i xs ys s t u
  unfolding find_or_create_upvalue
  find_or_create_upvalue-Found fuel nil fresh i s xs h new enough =
      let (before, after, c, e) =
        find_from-Cut fuel s.memory i none s.open_upvalues xs h.linked h.descending enough in
      let (t, u, ys, e', k) = outcome nil fresh i before after xs s h new c in
      (t, u, ys, ap (after_search nil fresh i s) e ∙ ap (λ (p : LuaState v × ℕ). some p) e', k)
