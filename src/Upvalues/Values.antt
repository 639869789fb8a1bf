-- ===== src/Upvalues/Values.antt =====
-- Writing through an upvalue (src/core/upvalue.cpp).
use lua.Prelude.{
  ℕ, ◌≡◌, refl, Bool, true, false, ◌∙◌, ap, sym, arith, ◌==◌, ◌&&◌, ◌||◌, if◌then◌else◌,
}
use lua.Upvalues.Cells.{Upvalue, LuaState, put, get_value, set_value}
use lua.Upvalues.Links.{put-part}

true-ne-false : true ≡ false → ⊥
true-ne-false e = cc

by_branch {ℓ ℓ'} :
    {A : Type ℓ} {B : Type ℓ'} (f : A → B) (b : Bool) (y z : A)
    → f (if b then y else z) ≡ (if b then f y else f z)
by_branch f true y z = refl
by_branch f false y z = refl

module _ {ℓ} {v : Type ℓ} where
  -- Two upvalues are one, or both are open for one slot of the stack.
  abbrev pub shares : LuaState v → ℕ → ℕ → Bool
  shares s u w =
      (u == w)
      || (((s.memory u).is_open && (s.memory w).is_open)
          && ((s.memory u).stack_index == (s.memory w).stack_index))

  -- The value read at `w`, by the tests on the two upvalues
  written :
      (open_u open_w same_slot same : Bool) (x slot closed new_slot new_closed : v)
      → new_slot ≡ (if same_slot then x else slot)
      → new_closed ≡ (if same then x else closed)
      → (same ≡ true → (open_u ≡ open_w) × (same_slot ≡ true))
      → (if open_u
          then (if open_w then new_slot else closed)
          else (if open_w then slot else new_closed))
        ≡ (if same || ((open_u && open_w) && same_slot)
            then x
            else (if open_w then slot else closed))
  written true true same_slot true x slot closed a b p q r =
      p ∙ ap (λ (d : Bool). if d then x else slot) ((r refl).1)
  written true true same_slot false x slot closed a b p q r = p
  written true false same_slot true x slot closed a b p q r = absurd (true-ne-false ((r refl).0))
  written true false same_slot false x slot closed a b p q r = refl
  written false true same_slot true x slot closed a b p q r =
      absurd (true-ne-false (sym ((r refl).0)))
  written false true same_slot false x slot closed a b p q r = refl
  written false false same_slot true x slot closed a b p q r = q
  written false false same_slot false x slot closed a b p q r = q

  -- What `set_value` writes is read at the upvalues that share the slot or are the one written, and
  -- every other upvalue reads what it read before.
  pub set_value-get_value :
      (s : LuaState v) (u w : ℕ) (x : v)
      → get_value (set_value s u x) w ≡ (if shares s u w then x else get_value s w)
  unfolding get_value set_value
  set_value-get_value s u w x =
      let o = s.memory u in
      let p = s.memory w in
      let fresh = record o { closed_value = x } in
      let read : LuaState v → v = λ t.
        if (t.memory w).is_open
        then t.stack (t.memory w).stack_index
        else (t.memory w).closed_value in
      let new_memory = put s.memory u fresh in
      let cell = (new_memory w).closed_value in
      let split : read (
            if o.is_open
            then record s { stack = put s.stack o.stack_index x }
            else record s { memory = new_memory })
          ≡ (if o.is_open
              then (if p.is_open then put s.stack o.stack_index x p.stack_index else p.closed_value)
              else (if p.is_open then s.stack p.stack_index else cell)) =
        by_branch read o.is_open (record s { stack = put s.stack o.stack_index x })
          (record s { memory = new_memory })
        ∙ ap
            (λ (z : v).
              if o.is_open
              then (if p.is_open then put s.stack o.stack_index x p.stack_index else p.closed_value)
              else z)
            (ap (λ (d : Bool). if d then s.stack (new_memory w).stack_index else cell)
                (put-part (λ (y : Upvalue v). y.is_open) s.memory u w fresh refl)
              ∙ ap (λ (k : ℕ). if p.is_open then s.stack k else cell)
                  (put-part (λ (y : Upvalue v). y.stack_index) s.memory u w fresh refl)) in
      split
      ∙ written o.is_open p.is_open (o.stack_index == p.stack_index) (u == w) x
          (s.stack p.stack_index) p.closed_value _ cell refl
          (by_branch (λ (y : Upvalue v). y.closed_value) (u == w) fresh p)
          (λ e.
            let same : u ≡ w = ground arith in
            (
              ap (λ (k : ℕ). (s.memory k).is_open) same,
              (let slots = ap (λ (k : ℕ). (s.memory k).stack_index) same in ground arith),
            ))
