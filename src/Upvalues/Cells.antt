-- ===== src/Upvalues/Cells.antt =====
-- Upvalues and the list of the open ones (src/core/upvalue.cpp, src/vm/state/lua_state.cpp). A
-- pointer is an address, and `memory` gives the fields of the upvalue at it. Every upvalue belongs
-- to one stack. The write barriers are in Gc.
use lua.Prelude.{ℕ, zero, suc, Bool, true, false, ◌==◌, ltb, leb, if◌then◌else◌, Option, none, some}

pub record Upvalue {ℓ} (v : Type ℓ) : Type ℓ where
  pub is_open : Bool
  pub stack_index : ℕ
  pub closed_value : v
  pub next : Option ℕ

-- The parts of `LuaState` and of its stack that upvalues read and write
pub record LuaState {ℓ} (v : Type ℓ) : Type ℓ where
  pub memory : ℕ → Upvalue v
  pub open_upvalues : Option ℕ
  pub stack : ℕ → v

-- A function with a new value at one argument
abbrev pub put {ℓ} : {a : Type ℓ} → (ℕ → a) → ℕ → a → ℕ → a
put f i x j = if i == j then x else f j

module _ {ℓ} {v : Type ℓ} where
  unfoldable pub get_value : LuaState v → ℕ → v
  get_value s u =
      if (s.memory u).is_open then s.stack (s.memory u).stack_index else (s.memory u).closed_value

  unfoldable pub set_value : LuaState v → ℕ → v → LuaState v
  set_value s u x =
      let o = s.memory u in
      if o.is_open
      then record s { stack = put s.stack o.stack_index x }
      else record s { memory = put s.memory u (record o { closed_value = x }) }

  unfoldable pub close : LuaState v → ℕ → LuaState v
  close s u =
      let o = s.memory u in
      if o.is_open
      then record s {
        memory =
            put s.memory u (record o { closed_value = s.stack o.stack_index; is_open = false });
      }
      else s

  abbrev pub set_next : (ℕ → Upvalue v) → ℕ → Option ℕ → ℕ → Upvalue v
  set_next m u next = put m u (record (m u) { next = next })

  -- The search of `findOrCreateUpvalue` for the first upvalue at or below an index, with the one
  -- before it; `none` if the fuel runs out.
  unfoldable pub find_from :
      ℕ → (ℕ → Upvalue v) → ℕ → Option ℕ → Option ℕ → Option (Option ℕ × Option ℕ)
  find_from zero m i prev curr = none
  find_from (suc fuel) m i prev none = some (prev, none)
  find_from (suc fuel) m i prev (some u) =
      let rest = find_from fuel m i (some u) (m u).next in
      if ltb i (m u).stack_index then rest else some (prev, some u)

  -- `Upvalue(stackIndex, ownerStack)`
  abbrev pub create_open : v → ℕ → Upvalue v
  create_open nil i = record { is_open = true; stack_index = i; closed_value = nil; next = none }

  -- The new upvalue stands at the address `fresh`.
  unfoldable pub insert_upvalue : v → ℕ → ℕ → LuaState v → Option ℕ → Option ℕ → LuaState v
  insert_upvalue nil fresh i s none curr = record s {
    memory = set_next (put s.memory fresh (create_open nil i)) fresh curr;
    open_upvalues = some fresh;
  }
  insert_upvalue nil fresh i s (some prev) curr = record s {
    memory =
        set_next (set_next (put s.memory fresh (create_open nil i)) fresh curr) prev (some fresh);
  }

  -- What follows the search
  unfoldable pub found_or_created : v → ℕ → ℕ → LuaState v → Option ℕ → Option ℕ → LuaState v × ℕ
  found_or_created nil fresh i s prev none = (insert_upvalue nil fresh i s prev none, fresh)
  found_or_created nil fresh i s prev (some u) =
      if (s.memory u).stack_index == i
      then (s, u)
      else (insert_upvalue nil fresh i s prev (some u), fresh)

  abbrev pub after_search :
      v → ℕ → ℕ → LuaState v → Option (Option ℕ × Option ℕ) → Option (LuaState v × ℕ)
  after_search nil fresh i s none = none
  after_search nil fresh i s (some (prev, curr)) = some (found_or_created nil fresh i s prev curr)

  -- The new state and the upvalue
  unfoldable pub find_or_create_upvalue : ℕ → v → ℕ → ℕ → LuaState v → Option (LuaState v × ℕ)
  find_or_create_upvalue fuel nil fresh i s =
      after_search nil fresh i s (find_from fuel s.memory i none s.open_upvalues)

  -- One round of the loop of `closeUpvalues`
  unfoldable pub close_first : LuaState v → ℕ → LuaState v
  close_first s u =
      let t = close (record s { open_upvalues = (s.memory u).next }) u in
      record t { memory = set_next t.memory u none }

  abbrev pub close_head : LuaState v → Option ℕ → LuaState v
  close_head s none = s
  close_head s (some u) = close_first s u

  abbrev pub is_above : ℕ → (ℕ → Upvalue v) → Option ℕ → Bool
  is_above level m none = false
  is_above level m (some u) = leb level (m u).stack_index

  -- `none` if the fuel runs out
  unfoldable pub close_upvalues_from : ℕ → ℕ → LuaState v → Option (LuaState v)
  close_upvalues_from zero level s = none
  close_upvalues_from (suc fuel) level s =
      let rest = close_upvalues_from fuel level (close_head s s.open_upvalues) in
      if is_above level s.memory s.open_upvalues then rest else some s
