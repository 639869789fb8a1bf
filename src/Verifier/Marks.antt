-- ===== src/Verifier/Marks.antt =====
-- The marks of an accepted function are right: the words without a mark are the starts of
-- instructions (src/runtime/bytecode_verifier.cpp).
use lua.Prelude.{
  ℕ, zero, suc, ◌+◌, ◌<◌, ◌≤◌, ◌≡◌, ◌≢◌, ◌⊎◌, ◌↔◌, inl, inr, refl, ap, sym, subst, ◌∙◌, true, false,
  ltb, length, get_or, set, replicate, length-replicate, get_or-replicate, arith, Bool-cases,
  ltb→lt,
}
use mathlib.Core.Bool.{true≢false}
use native.Mathlib.Decide.{dec_lt}
use lua.Prelude.Result.{Result, ok, err, ◌>>=◌, >>=-eq-ok}
use lua.Proto.{Info, Children}
use lua.Verifier.Checks.{Rejection, Rejection, out_of_fuel}
use lua.Verifier.Marking.{
  verify_pseudo, mark_pseudos, mark_setlist, mark_closure, Words, mark_setlist, verify_pseudo,
  mark_pseudos, mark_closure, mark_step, mark_from,
}
use lua.Verifier.Starts.{width, width-pos, Start, first, next}
use lua.Verifier.Moves.{Moves, mark_step-Moves}

-- What holds of the marks when the loop stands at `pc`.
pub record MarksUpTo (p : Info) (cs : Children) (pc : ℕ) (w : Words) : Type 0 where
  pub same_length : length w ≡ length p.code
  pub here : Start p cs pc
  pub ahead : (k : ℕ) → pc ≤ k → get_or w k false ≡ false
  pub bare : (k : ℕ) → k < pc → get_or w k false ≡ false → Start p cs k
  pub chain :
      (k : ℕ)
      → k < pc
      → get_or w k false ≡ false
      → (k + width cs (get_or p.code k 0) ≤ pc)
        × (get_or w (k + width cs (get_or p.code k 0)) false ≡ false)
  pub entry : get_or w 0 false ≡ false
  pub bounded : pc ≤ length p.code

module _ (p : Info) (cs : Children) (pc : ℕ) (w : Words) (r : ℕ × Words) (h : pc < length p.code)
    (inv : MarksUpTo p cs pc w) (m : Moves p cs pc w r) where
  -- A word before the new pc without a mark is the instruction just passed, or an older one.
  unmarked :
      (k : ℕ)
      → k < r.0
      → get_or r.1 k false ≡ false
      → ((k < pc) × (get_or w k false ≡ false)) ⊎ (k ≡ pc)
  unmarked k l e = elim (dec_lt pc k) [
    | yes beyond ↦ absurd (true≢false (sym (m.marks.inside k beyond l) ∙ e))
    | no up_to ↦ elim (dec_lt k pc) [
      | yes before ↦ inl (before, sym (m.marks.below k (omega arith)) ∙ e)
      | no late ↦ inr (omega arith)
    ]
  ]

  chained :
      (k : ℕ)
      → k < r.0
      → get_or r.1 k false ≡ false
      → (k + width cs (get_or p.code k 0) ≤ r.0)
        × (get_or r.1 (k + width cs (get_or p.code k 0)) false ≡ false)
  chained k l e = elim (unmarked k l e) [
    | inl (before, e') ↦
        let (fits, clear) = inv.chain k before e' in
        let pos = width-pos cs (get_or p.code pc 0) in
        (omega (arith, m.over), m.marks.below _ (omega arith) ∙ clear)
    | inr same ↦ rw same (
      omega (arith, m.over),
      rw (← m.over) (m.marks.above r.0 (omega arith) ∙ inv.ahead r.0 (omega (arith, m.over))),
    )
  ]

  Moves-MarksUpTo : MarksUpTo p cs r.0 r.1
  Moves-MarksUpTo =
      let pos = width-pos cs (get_or p.code pc 0) in
      record {
        same_length = m.marks.same_length ∙ inv.same_length;
        here = next inv.here h m.over;
        ahead = λ k l. m.marks.above k l ∙ inv.ahead k (omega (arith, m.over));
        bare = λ k l e. elim (unmarked k l e) [
          | inl (before, e') ↦ inv.bare k before e'
          | inr same ↦ subst (Start p cs) (sym same) inv.here
        ];
        chain = chained;
        entry = m.marks.below 0 (omega arith) ∙ inv.entry;
        bounded = m.within;
      }

module _ (p : Info) (cs : Children) where
  mark_from-MarksUpTo :
      (fuel pc : ℕ) (w w' : Words)
      → mark_from p cs fuel pc w ≡ ok w'
      → MarksUpTo p cs pc w
      → MarksUpTo p cs (length p.code) w'
  unfolding mark_from
  mark_from-MarksUpTo zero pc w w' e inv =
      let stopped : (length p.code ≡ pc) × (w ≡ w') = ground arith in
      rw stopped.0 (subst (MarksUpTo p cs pc) stopped.1 inv)
  mark_from-MarksUpTo (suc fuel) pc w w' e inv = elim (Bool-cases (ltb pc (length p.code))) [
    | inr done ↦
        let stopped : (length p.code ≡ pc) × (w ≡ w') = ground arith in
        rw stopped.0 (subst (MarksUpTo p cs pc) stopped.1 inv)
    | inl more ↦
        let h = ltb→lt pc (length p.code) more in
        let (r, stepped, rest) = >>=-eq-ok (mark_step p cs pc w) _ (rw more at e) in
        mark_from-MarksUpTo fuel r.0 r.1 w' rest (
          Moves-MarksUpTo p cs pc w r h inv (mark_step-Moves p cs pc w r h inv.same_length stepped))
  ]

  start-MarksUpTo : MarksUpTo p cs 0 (replicate (length p.code) false)
  start-MarksUpTo = record {
    same_length = length-replicate (length p.code) false;
    here = first;
    ahead = λ k l. get_or-replicate (length p.code) k false;
    bare = λ k l e. absurd (omega arith);
    chain = λ k l e. absurd (omega arith);
    entry = get_or-replicate (length p.code) 0 false;
    bounded = omega arith;
  }

  Start-unmarked :
      (w : Words)
      → MarksUpTo p cs (length p.code) w
      → {k : ℕ} → Start p cs k
      → (k ≤ length p.code) × (get_or w k false ≡ false)
  Start-unmarked w inv first = (omega arith, inv.entry)
  Start-unmarked w inv (next {pc = pc} s h e) =
      let (bound, clear) = Start-unmarked w inv s in rw e (inv.chain pc h clear)

  -- The marks that the loop leaves, when it accepts the code of a function: one for each word of
  -- the code, and exactly the words at which no instruction starts are marked. An instruction that
  -- starts within the code ends within it.
  pub mark_from-Start :
      (w : Words)
      → mark_from p cs (length p.code) 0 (replicate (length p.code) false) ≡ ok w
      → (length w ≡ length p.code)
        × ((k : ℕ) → k < length p.code → (get_or w k false ≡ false) ↔ Start p cs k)
        × ((k : ℕ) → Start p cs k → k ≤ length p.code)
  mark_from-Start w e =
      let inv = mark_from-MarksUpTo (length p.code) 0 _ w e start-MarksUpTo in
      (
        inv.same_length,
        λ k l. (inv.bare k l, λ s. (Start-unmarked w inv s).1),
        λ k s. (Start-unmarked w inv s).0,
      )

  verify_pseudo-ne-out_of_fuel : (at : ℕ) → verify_pseudo p at ≢ err out_of_fuel
  unfolding verify_pseudo
  verify_pseudo-ne-out_of_fuel at e = ground arith

  mark_pseudos-ne-out_of_fuel :
      (rounds at : ℕ) (w : Words) → mark_pseudos p rounds at w ≢ err out_of_fuel
  unfolding mark_pseudos
  mark_pseudos-ne-out_of_fuel zero at w e = cc
  mark_pseudos-ne-out_of_fuel (suc rounds) at w e = ground (
    arith,
    verify_pseudo-ne-out_of_fuel at,
    mark_pseudos-ne-out_of_fuel rounds (at + 1) (set w at true),
  )

  mark_step-ne-out_of_fuel : (pc : ℕ) (w : Words) → mark_step p cs pc w ≢ err out_of_fuel
  unfolding mark_step mark_setlist mark_closure
  mark_step-ne-out_of_fuel pc w e = grind (arith, mark_pseudos-ne-out_of_fuel)

  -- The loop ends by its test within one round for each word left: the fuel does not run out.
  pub mark_from-ne-out_of_fuel :
      (fuel pc : ℕ) (w : Words)
      → length p.code ≤ pc + fuel
      → length w ≡ length p.code
      → mark_from p cs fuel pc w ≢ err out_of_fuel
  unfolding mark_from
  mark_from-ne-out_of_fuel zero pc w h l e = ground arith
  mark_from-ne-out_of_fuel (suc fuel) pc w h l e = elim (Bool-cases (ltb pc (length p.code))) [
    | inr done ↦ ground arith
    | inl more ↦
        after (ltb→lt pc _ more) (mark_from-ne-out_of_fuel fuel) (mark_step p cs pc w) refl
          (rw more at e)
  ]
    where
      after :
          pc < length p.code
          → ((pc' : ℕ) (w' : Words)
              → length p.code ≤ pc' + fuel
              → length w' ≡ length p.code
              → mark_from p cs fuel pc' w' ≢ err out_of_fuel)
          → (m : Result Rejection (ℕ × Words)) → mark_step p cs pc w ≡ m
          → (m >>= (λ r. mark_from p cs fuel r.0 r.1)) ≡ err out_of_fuel
          → ⊥
      after inside ih (err x) s f =
          let same : x ≡ out_of_fuel = cc in mark_step-ne-out_of_fuel pc w (s ∙ ap err same)
      after inside ih (ok r) s f =
          let m = mark_step-Moves p cs pc w r inside l s in
          let pos = width-pos cs (get_or p.code pc 0) in
          ih r.0 r.1 (omega (arith, m.over)) (m.marks.same_length ∙ l) f
