-- ===== src/Upvalues/Closed.antt =====
-- `closeUpvalues` (src/vm/state/lua_state.cpp).
use mathlib.Core.List.{Memᴰ}
use mathlib.Core.List.Memᴰ
use lua.Prelude.{
  ℕ, zero, suc, ◌≡◌, ◌⊎◌, inl, inr, refl, Bool, true, false, List, [], ◌∷◌, Option, some, ◌∙◌, ap,
  sym, subst, Bool-cases, arith, ◌≤◌, ◌<◌, leb, length, if◌then◌else◌,
}
use lua.Upvalues.Cells.{
  Upvalue, LuaState, get_value, close_first, close_head, is_above, close_upvalues_from,
}
use lua.Upvalues.Links.{Linked, OpenList, same-Linked, same-Descending, first_apart}
use lua.Upvalues.Closing.{ClosedOne, close_first-ClosedOne, ClosedOne-values}

module _ {ℓ} {v : Type ℓ} where
  -- What closing gives: the list of those below the level, and the value of each upvalue as before
  pub record Closed (level : ℕ) (xs ys : List ℕ) (s t : LuaState v) : Type ℓ where
    pub list : OpenList t ys
    pub same_value : (u : ℕ) → get_value t u ≡ get_value s u
    pub same_index : (u : ℕ) → (t.memory u).stack_index ≡ (s.memory u).stack_index
    pub same_stack : t.stack ≡ s.stack
    pub decided :
        (u : ℕ)
        → Memᴰ u xs
        → (level ≤ (s.memory u).stack_index) × ((t.memory u).is_open ≡ false)
          ⊎ ((s.memory u).stack_index < level) × Memᴰ u ys
    pub only : (u : ℕ) → Memᴰ u ys → Memᴰ u xs × ((s.memory u).stack_index < level)
    pub away : (u : ℕ) → ¬ Memᴰ u xs → t.memory u ≡ s.memory u

  stop :
      (fuel level : ℕ) (s : LuaState v)
      → is_above level s.memory s.open_upvalues ≡ false
      → close_upvalues_from (suc fuel) level s ≡ some s
  unfolding close_upvalues_from
  stop fuel level s e =
      ap
        (λ (b : Bool).
          if b then close_upvalues_from fuel level (close_head s s.open_upvalues) else some s)
        e

  go_on :
      (fuel level : ℕ) (s : LuaState v)
      → is_above level s.memory s.open_upvalues ≡ true
      → close_upvalues_from (suc fuel) level s
        ≡ close_upvalues_from fuel level (close_head s s.open_upvalues)
  unfolding close_upvalues_from
  go_on fuel level s e =
      ap
        (λ (b : Bool).
          if b then close_upvalues_from fuel level (close_head s s.open_upvalues) else some s)
        e

  above_head :
      (level : ℕ) (s : LuaState v) (x : ℕ)
      → s.open_upvalues ≡ some x
      → is_above level s.memory s.open_upvalues ≡ leb level (s.memory x).stack_index
  above_head level s x e = ap (λ (h : Option ℕ). is_above level s.memory h) e

  -- The upvalues after the one that is closed are the new list.
  ClosedOne-OpenList :
      (s t : LuaState v) (x : ℕ) (xs : List ℕ)
      → OpenList s (x ∷ xs)
      → ClosedOne x s t
      → OpenList t xs
  ClosedOne-OpenList s t x xs h c =
      let same : (u : ℕ) → Memᴰ u xs → t.memory u ≡ s.memory u =
        λ u i. c.others u (first_apart s.memory x xs h.descending u i) in
      record {
        linked =
            subst (λ k. Linked t.memory k xs) (sym c.head)
              (same-Linked s.memory t.memory (s.memory x).next xs
                (λ u i. ap (λ (o : Upvalue v). o.next) (same u i)) h.linked.1);
        descending =
            same-Descending s.memory t.memory xs
              (λ u i. ap (λ (o : Upvalue v). o.stack_index) (same u i)) h.descending.1;
        opened = λ u i. ap (λ (o : Upvalue v). o.is_open) (same u i) ∙ h.opened u (Memᴰ.tail i);
      }

  -- Nothing is closed where the first of the list is below the level.
  nothing-Closed :
      (level : ℕ) (s : LuaState v) (xs : List ℕ)
      → OpenList s xs
      → ((u : ℕ) → Memᴰ u xs → (s.memory u).stack_index < level)
      → Closed level xs xs s s
  nothing-Closed level s xs h low = record {
    list = h;
    same_value = λ u. refl;
    same_index = λ u. refl;
    same_stack = refl;
    decided = λ u i. inr (low u i, i);
    only = λ u i. (i, low u i);
    away = λ u n. refl;
  }

  -- The first upvalue is closed, then others.
  more-Closed :
      (level x : ℕ) (xs ys : List ℕ) (s t u : LuaState v)
      → OpenList s (x ∷ xs)
      → level ≤ (s.memory x).stack_index
      → ClosedOne x s t
      → Closed level xs ys t u
      → Closed level (x ∷ xs) ys s u
  more-Closed level x xs ys s t u h high c k =
      let values = ClosedOne-values x s t (h.opened x (Memᴰ.head refl)) c in
      let index : (b : ℕ) → (t.memory b).stack_index ≡ (s.memory b).stack_index =
        λ b. (values b).1 in
      let apart = first_apart s.memory x xs h.descending in
      let shut : (u.memory x).is_open ≡ false =
        ap (λ (o : Upvalue v). o.is_open) (k.away x (λ i. apart x i refl) ∙ c.cell) in
      record {
        list = k.list;
        same_value = λ b. k.same_value b ∙ (values b).0;
        same_index = λ b. k.same_index b ∙ index b;
        same_stack = k.same_stack ∙ c.stays;
        decided = λ b i. elim (Memᴰ.cases_cons i) [
          | inl e ↦
              subst
                (λ (w : ℕ).
                  (level ≤ (s.memory w).stack_index) × ((u.memory w).is_open ≡ false)
                  ⊎ ((s.memory w).stack_index < level) × Memᴰ w ys)
                (sym e) (inl (high, shut))
          | inr j ↦
              subst
                (λ (n : ℕ). (level ≤ n) × ((u.memory b).is_open ≡ false) ⊎ (n < level) × Memᴰ b ys)
                (index b) (k.decided b j)
        ];
        only =
            λ b i. let (j, low) = k.only b i in (Memᴰ.tail j, subst (λ n. n < level) (index b) low);
        away = λ b n. k.away b (λ i. n (Memᴰ.tail i)) ∙ c.others b (λ e. n (Memᴰ.head (sym e)));
      }

  -- For a list of open upvalues and more fuel than upvalues, closing returns. The upvalues of the
  -- list at or above the level are closed, the others are the new list, the stack is as before, and
  -- so is the value of every upvalue.
  pub close_upvalues_from-Closed :
      (fuel level : ℕ) (s : LuaState v) (xs : List ℕ)
      → OpenList s xs
      → length xs < fuel
      → (t : LuaState v) × (ys : List ℕ) × (close_upvalues_from fuel level s ≡ some t)
        × Closed level xs ys s t
  close_upvalues_from-Closed zero level s xs h enough = absurd (omega arith)
  close_upvalues_from-Closed (suc fuel) level s [] h enough = (
    s,
    [],
    stop fuel level s (ap (λ (k : Option ℕ). is_above level s.memory k) h.linked),
    nothing-Closed level s [] h (λ u i. absurd (Memᴰ.not-nil i)),
  )
  close_upvalues_from-Closed (suc fuel) level s (x ∷ xs) h enough =
      let head = above_head level s x h.linked.0 in
      elim (Bool-cases (leb level (s.memory x).stack_index)) [
        | inl e ↦
            let high : level ≤ (s.memory x).stack_index = ground arith in
            let c = close_first-ClosedOne s x (h.opened x (Memᴰ.head refl)) in
            let (t, ys, done, k) =
              close_upvalues_from-Closed fuel level (close_first s x) xs
                (ClosedOne-OpenList s (close_first s x) x xs h c) (omega arith) in
            (
              t,
              ys,
              go_on fuel level s (head ∙ e)
                  ∙ ap (λ (o : Option ℕ). close_upvalues_from fuel level (close_head s o))
                      h.linked.0
                  ∙ done,
              more-Closed level x xs ys s (close_first s x) t h high c k,
            )
        | inr e ↦
            let low : (s.memory x).stack_index < level = ground arith in
            (
              s,
              x ∷ xs,
              stop fuel level s (head ∙ e),
              nothing-Closed level s (x ∷ xs) h (λ u i. elim (Memᴰ.cases_cons i) [
                | inl e' ↦ subst (λ (k : ℕ). (s.memory k).stack_index < level) (sym e') low
                | inr j ↦ let less = h.descending.0 u j in omega (arith, less, low)
              ]),
            )
      ]
