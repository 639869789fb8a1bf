-- ===== src/Verifier/Moves.antt =====
-- One round of the marking loop: it moves over one instruction and marks the words behind its
-- first (src/runtime/bytecode_verifier.cpp).
use lua.Prelude.{
  ℕ, zero, suc, ◌+◌, ◌<◌, ◌≤◌, ◌≡◌, inl, inr, refl, sym, subst, ◌∙◌, true, false, length, get_or,
  set, length-set, get_or-set_self, get_or-set_ne, arith, Bool-cases,
}
use native.Mathlib.Numerals.{add-one}
use native.Mathlib.Decide.{ℕ_discrete}
use lua.Prelude.Result.{Result, ok, >>-eq-ok}
use lua.Opcode.Metadata.{closure, is_opcode}
use lua.Opcode.Instruction.{get_opcode}
use lua.Proto.{Info, Children}
use lua.Verifier.Marking.{
  Words, has_extended_operand, mark_setlist, verify_pseudo, mark_pseudos, mark_closure, mark_step,
}
use lua.Verifier.Starts.{captured, width}

-- `after` is `before` with the words from `lo` up to `hi` marked.
pub record Marked (lo hi : ℕ) (before after : Words) : Type 0 where
  pub same_length : length after ≡ length before
  pub below : (k : ℕ) → k < lo → get_or after k false ≡ get_or before k false
  pub inside : (k : ℕ) → lo ≤ k → k < hi → get_or after k false ≡ true
  pub above : (k : ℕ) → hi ≤ k → get_or after k false ≡ get_or before k false

ok-injective {ℓ} : {E : Type 0} {A : Type ℓ} {a b : A} → ◌≡◌ {A = Result E A} (ok a) (ok b) → a ≡ b
ok-injective e = cc

Marked-none : (lo : ℕ) (w : Words) → Marked lo lo w w
Marked-none lo w = record {
  same_length = refl;
  below = λ k h. refl;
  inside = λ k h l. absurd (omega arith);
  above = λ k h. refl;
}

Marked-cons :
    (lo hi : ℕ) (w w' : Words)
    → lo < length w
    → lo < hi
    → Marked (suc lo) hi (set w lo true) w'
    → Marked lo hi w w'
Marked-cons lo hi w w' h lt m = record {
  same_length = m.same_length ∙ length-set w lo true;
  below = λ k l. m.below k (omega arith) ∙ get_or-set_ne w lo k true false (omega arith);
  inside = λ k l u. elim (ℕ_discrete k lo) [
    | yes e ↦ rw e (m.below lo (omega arith) ∙ get_or-set_self w lo true false h)
    | no ne ↦ m.inside k (omega arith) u
  ];
  above = λ k l. m.above k l ∙ get_or-set_ne w lo k true false (omega arith);
}

mark_pseudos-Marked :
    (p : Info) (rounds at hi : ℕ) (w w' : Words)
    → mark_pseudos p rounds at w ≡ ok w'
    → hi ≡ at + rounds
    → hi ≤ length w
    → Marked at hi w w'
unfolding mark_pseudos
mark_pseudos-Marked p zero at hi w w' e eh h =
    let same : at ≡ hi = omega arith in
    subst (λ (k : ℕ). Marked at k w w') same
      (subst (Marked at at w) (ok-injective e) (Marked-none at w))
mark_pseudos-Marked p (suc rounds) at hi w w' e eh h =
    let (checked, rest) = >>-eq-ok (verify_pseudo p at) _ e in
    Marked-cons at hi w w' (omega arith) (omega arith) (
      subst (λ (k : ℕ). Marked k hi (set w at true) w') (omega arith)
        (mark_pseudos-Marked p rounds (at + 1) hi (set w at true) w' rest (omega arith)
          (omega (arith, length-set w at true))))

-- What one round does at `pc`: it moves over one instruction and marks the words behind its first.
pub record Moves (p : Info) (cs : Children) (pc : ℕ) (w : Words) (r : ℕ × Words) : Type 0 where
  pub over : r.0 ≡ pc + width cs (get_or p.code pc 0)
  pub within : r.0 ≤ length p.code
  pub marks : Marked (suc pc) r.0 w r.1

module _ (p : Info) (cs : Children) (pc : ℕ) (w : Words) (r : ℕ × Words) (h : pc < length p.code)
    (l : length w ≡ length p.code) where
  setlist_run :
      mark_setlist p pc w ≡ ok r
      → (suc pc < length p.code) × (r.0 ≡ pc + 2) × (set w (suc pc) true ≡ r.1)
  unfolding mark_setlist
  setlist_run e = ground (arith, add-one pc)

  mark_setlist-Moves :
      mark_setlist p pc w ≡ ok r
      → has_extended_operand (get_or p.code pc 0) ≡ true
      → Moves p cs pc w r
  unfolding width
  mark_setlist-Moves e ext =
      let (inside, next_pc, marked) = setlist_run e in
      record {
        over = ground arith;
        within = omega arith;
        marks = Marked-cons (suc pc) r.0 w r.1 (omega arith) (omega arith) (
            subst (Marked (suc (suc pc)) r.0 (set w (suc pc) true)) marked (
              subst (λ (k : ℕ). Marked (suc (suc pc)) k (set w (suc pc) true) (set w (suc pc) true))
                (omega arith) (Marked-none (suc (suc pc)) (set w (suc pc) true))));
      }

  closure_run :
      mark_closure p cs pc w ≡ ok r
      → (pc + captured cs (get_or p.code pc 0) < length p.code)
        × (mark_pseudos p (captured cs (get_or p.code pc 0)) (pc + 1) w ≡ ok r.1)
        × (r.0 ≡ pc + captured cs (get_or p.code pc 0) + 1)
  unfolding mark_closure captured
  closure_run e = ground arith

  mark_closure-Moves :
      mark_closure p cs pc w ≡ ok r
      → has_extended_operand (get_or p.code pc 0) ≡ false
      → is_opcode (get_opcode (get_or p.code pc 0)) closure ≡ true
      → Moves p cs pc w r
  unfolding width
  mark_closure-Moves e ext clo =
      let (inside, marked, next_pc) = closure_run e in
      record {
        over = ground arith;
        within = omega arith;
        marks =
            subst (λ (k : ℕ). Marked k r.0 w r.1) (omega arith)
              (mark_pseudos-Marked p _ (pc + 1) r.0 w r.1 marked (omega arith) (omega arith));
      }

  plain_run :
      mark_step p cs pc w ≡ ok r
      → has_extended_operand (get_or p.code pc 0) ≡ false
      → is_opcode (get_opcode (get_or p.code pc 0)) closure ≡ false
      → (r.0 ≡ suc pc) × (w ≡ r.1)
  unfolding mark_step
  plain_run e ext clo = ground (arith, add-one pc)

  pub mark_step-Moves : mark_step p cs pc w ≡ ok r → Moves p cs pc w r
  unfolding mark_step width
  mark_step-Moves e = elim (Bool-cases (has_extended_operand (get_or p.code pc 0))) [
    | inl ext ↦ mark_setlist-Moves (ground arith) ext
    | inr ext ↦ elim (Bool-cases (is_opcode (get_opcode (get_or p.code pc 0)) closure)) [
      | inl clo ↦ mark_closure-Moves (ground arith) ext clo
      | inr clo ↦
          let (next_pc, same) = plain_run e ext clo in
          record {
            over = ground arith;
            within = omega arith;
            marks =
                subst (Marked (suc pc) r.0 w) same
                  (subst (λ (k : ℕ). Marked (suc pc) k w w) (sym next_pc) (Marked-none (suc pc) w));
          }
    ]
  ]
