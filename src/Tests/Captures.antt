-- ===== src/Tests/Captures.antt =====
-- Runs of the list of open upvalues.
use mathlib.Core.List.{Memᴰ}
use mathlib.Core.List.Memᴰ
use lua.Prelude.{
  ℕ, ◌≡◌, inl, inr, refl, true, List, [], ◌∷◌, none, some, arith, if◌then◌else◌, ◌==◌, sym, ◌*◌,
  ◌<◌, subst,
}
use lua.Upvalues.Cells.{
  Upvalue, LuaState, find_or_create_upvalue, close_upvalues_from, get_value, set_value, get_value,
}
use lua.Upvalues.Values.{shares, set_value-get_value}
use lua.Upvalues.Links.{OpenList}
use lua.Upvalues.Sharing.{Found, find_or_create_upvalue-Found}
use lua.Upvalues.Closed.{Closed, close_upvalues_from-Closed}

-- An upvalue for the slot 7 at the address 1, and one for the slot 3 at the address 2
abbrev two_open : LuaState ℕ
two_open = record {
  memory = λ a. record {
    is_open = true;
    stack_index = if a == 1 then 7 else 3;
    closed_value = 0;
    next = if a == 1 then some 2 else none;
  };
  open_upvalues = some 1;
  stack = λ i. 10 * i;
}

two_open-OpenList : OpenList two_open (1 ∷ 2 ∷ [])
two_open-OpenList = record {
  linked = (refl, (refl, refl));
  descending = (
    λ y i.
        subst (λ k. (two_open.memory k).stack_index < 7) (sym (Memᴰ.eq_of_singleton i))
          (omega arith),
    (λ y i. absurd (Memᴰ.not-nil i), tt),
  );
  opened = λ u i. refl;
}

-- Two closures that capture the slot 7 share its upvalue.
shared_slot : find_or_create_upvalue 3 0 9 7 two_open ≡ some (two_open, 1)
unfolding find_or_create_upvalue lua.Upvalues.Cells.find_from lua.Upvalues.Cells.found_or_created
shared_slot = refl

apart_9 : ¬ Memᴰ {A = ℕ} 9 (1 ∷ 2 ∷ [])
apart_9 i = elim (Memᴰ.cases_cons i) [
  | inl e ↦ omega (arith, e)
  | inr j ↦ let e = Memᴰ.eq_of_singleton j in omega (arith, e)
]

find_or_create_upvalue-Found_example :
    (t : LuaState ℕ) × (u : ℕ) × (ys : List ℕ) × (find_or_create_upvalue 3 0 9 5 two_open
      ≡ some (t, u))
    × Found 9 5 (1 ∷ 2 ∷ []) ys two_open t u
find_or_create_upvalue-Found_example =
    find_or_create_upvalue-Found 3 0 9 5 two_open (1 ∷ 2 ∷ []) two_open-OpenList apart_9
      (omega arith)

close_upvalues_from-Closed_example :
    (t : LuaState ℕ) × (ys : List ℕ) × (close_upvalues_from 3 5 two_open ≡ some t)
    × Closed 5 (1 ∷ 2 ∷ []) ys two_open t
close_upvalues_from-Closed_example =
    close_upvalues_from-Closed 3 5 two_open (1 ∷ 2 ∷ []) two_open-OpenList (omega arith)

-- Two upvalues for the slot 4, of two closures that do not share one
abbrev twins : LuaState ℕ
twins = record two_open {
  memory = λ a. record { is_open = true; stack_index = 4; closed_value = 0; next = none };
}

set_value-get_value_example :
    get_value (set_value twins 1 6) 2 ≡ (if shares twins 1 2 then 6 else get_value twins 2)
set_value-get_value_example = set_value-get_value twins 1 2 6
