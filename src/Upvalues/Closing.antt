-- ===== src/Upvalues/Closing.antt =====
-- One round of `closeUpvalues` (src/vm/state/lua_state.cpp).

use lua.Prelude.{
  ℕ, ◌≡◌, ◌≢◌, inl, inr, refl, Bool, true, false, none, ◌∙◌, ap, sym, subst, Bool-cases, arith,
  ◌==◌, if◌then◌else◌,
}
use lua.Upvalues.Cells.{Upvalue, LuaState, put, set_next, get_value, close, close_first}
use lua.Upvalues.Links.{put_self, put-other}

module _ {ℓ} {v : Type ℓ} where
  -- An open upvalue is closed: it keeps its value and leaves the list.
  pub record ClosedOne (u : ℕ) (s t : LuaState v) : Type ℓ where
    pub cell : t.memory u ≡ record (s.memory u) {
      closed_value = s.stack (s.memory u).stack_index;
      is_open = false;
      next = none;
    }
    pub others : (b : ℕ) → u ≢ b → t.memory b ≡ s.memory b
    pub stays : t.stack ≡ s.stack
    pub head : t.open_upvalues ≡ (s.memory u).next

  closed_state : LuaState v → ℕ → LuaState v
  closed_state s u = record s {
    memory =
        put s.memory u (record (s.memory u) {
          closed_value = s.stack (s.memory u).stack_index;
          is_open = false;
        });
    open_upvalues = (s.memory u).next;
  }

  close_first_lem :
      (s : LuaState v) (u : ℕ)
      → (s.memory u).is_open ≡ true
      → close_first s u
        ≡ record (closed_state s u) { memory = set_next (closed_state s u).memory u none }
  unfolding close_first close closed_state
  close_first_lem s u e =
      ap
        (λ (b : Bool).
          let next : LuaState v = record s { open_upvalues = (s.memory u).next } in
          let t : LuaState v = if b then closed_state s u else next in
          record t { memory = set_next t.memory u none })
        e

  pub close_first-ClosedOne :
      (s : LuaState v) (u : ℕ) → (s.memory u).is_open ≡ true → ClosedOne u s (close_first s u)
  unfolding closed_state
  close_first-ClosedOne s u e =
      let f = close_first_lem s u e in
      let c = closed_state s u in
      record {
        cell =
            ap (λ (t : LuaState v). t.memory u) f
            ∙ put_self c.memory u u (record (c.memory u) { next = none }) refl
            ∙ ap (λ (o : Upvalue v). record o { next = none }) (put_self s.memory u u _ refl);
        others = λ b ne.
            ap (λ (t : LuaState v). t.memory b) f
            ∙ put-other c.memory u b _ ne
            ∙ put-other s.memory u b _ ne;
        stays = ap (λ (t : LuaState v). t.stack) f;
        head = ap (λ (t : LuaState v). t.open_upvalues) f;
      }

  pub ClosedOne-values :
      (u : ℕ) (s t : LuaState v)
      → (s.memory u).is_open ≡ true
      → ClosedOne u s t
      → (b : ℕ)
      → (get_value t b ≡ get_value s b) × ((t.memory b).stack_index ≡ (s.memory b).stack_index)
  unfolding get_value
  ClosedOne-values u s t e c b =
      let read : Upvalue v → (ℕ → v) → v =
        λ o stack. if o.is_open then stack o.stack_index else o.closed_value in
      elim (Bool-cases (u == b)) [
        | inl h ↦
            let same : u ≡ b = ground arith in
            subst
              (λ (k : ℕ).
                (read (t.memory k) t.stack ≡ read (s.memory k) s.stack)
                × ((t.memory k).stack_index ≡ (s.memory k).stack_index))
              same
              (
                ap (λ (o : Upvalue v). read o t.stack) c.cell
                    ∙ ap
                        (λ (x : Bool).
                          if x then s.stack (s.memory u).stack_index else (s.memory u).closed_value)
                        (sym e),
                ap (λ (o : Upvalue v). o.stack_index) c.cell,
              )
        | inr h ↦
            let same = c.others b (λ d. ground arith) in
            (
              ap (λ (o : Upvalue v). read o t.stack) same
                  ∙ ap (λ (st : ℕ → v). read (s.memory b) st) c.stays,
              ap (λ (o : Upvalue v). o.stack_index) same,
            )
      ]
