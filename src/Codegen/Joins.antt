-- ===== src/Codegen/Joins.antt =====
-- Joining two jump lists (src/compiler/codegen/jump_patcher.cpp, `concatJumpList`).
use lua.Prelude.{
  ℕ, zero, suc, ◌<◌, ◌≡◌, ◌≢◌, refl, sym, subst, List, [], ◌∷◌, ◌++◌, length, get_or, arith,
}
use mathlib.Core.List.{append-nil}
use lua.Prelude.Int.{ℤ, pos, negsuc, ◌+ℤ◌}
use lua.Prelude.Result.{ok}
use lua.Codegen.Chains.{
  Chain, link, Chain-head, Chain-none, NotIn, Distinct, InReach, AreWords, SameBut, Fixed,
  fix_jump-Fixed, Chain-others, get_jump_lem, not_end,
}
use lua.Codegen.Jumps.{follow, last_jump, concat_jump_list}
use lua.Opcode.Instruction.{Instruction}

-- An offset that lands elsewhere is not taken for the end of a list.
follow-lands : (p r : ℕ) (n : ℤ) → pos p +ℤ pos 1 +ℤ n ≡ pos r → r ≢ p → follow (pos p) n ≡ pos r
unfolding follow ◌+ℤ◌
follow-lands p r (pos n) e ne = ground arith
follow-lands p r (negsuc n) e ne = ground arith

-- The last jump of a list is made to lead to `r`.
record Joined (code : List Instruction) (p : ℕ) (ps : List ℕ) (r : ℕ) (rs : List ℕ) (fuel : ℕ)
    : Type 0 where
  last : ℕ
  joined : List Instruction
  found : last_jump fuel code (pos p) ≡ ok (pos last)
  fixed : Fixed code last (pos r) joined
  inside : (x : ℕ) → NotIn x (p ∷ ps) → x ≢ last
  chain : Chain joined (pos p) ((p ∷ ps) ++ r ∷ rs)

NotIn-left : (x : ℕ) (ps rs : List ℕ) → NotIn x (ps ++ rs) → NotIn x ps
NotIn-left x [] rs h = tt
NotIn-left x (p ∷ ps) rs (ne, h) = (ne, NotIn-left x ps rs h)

join :
    (fuel : ℕ) (code : List Instruction) (p : ℕ) (ps : List ℕ) (r : ℕ) (rs : List ℕ)
    → Chain code (pos p) (p ∷ ps)
    → Chain code (pos r) (r ∷ rs)
    → Distinct ((p ∷ ps) ++ r ∷ rs)
    → InReach (pos r) (p ∷ ps)
    → AreWords code
    → length ps < fuel
    → Joined code p ps r rs fuel
unfolding last_jump
join zero code p ps r rs c c' d reach w h = absurd (omega arith)
join (suc fuel) code p [] r rs c c' ((ne, away), d) (near, reach) w h =
    let (same_head, hp, rest) = Chain-head c in
    let (code', f) = fix_jump-Fixed code p (pos r) hp w near in
    record {
      last = p;
      joined = code';
      found = rw (get_jump_lem code p hp, Chain-none rest) refl;
      fixed = f;
      inside = λ x (other, none). other;
      chain =
          link (rw f.size hp) (follow-lands p r _ f.lands (λ same. ne (sym same)))
            (Chain-others code code' p (r ∷ rs) f.size f.others (ne, away) c');
    }
join (suc fuel) code p (q ∷ ps) r rs c c' ((pq, away), d) (near, reach) w h =
    let (same_head, hp, rest) = Chain-head c in
    let (next, hq, beyond) = Chain-head rest in
    let j = join fuel code q ps r rs (rw next at rest) c' d reach w (omega arith) in
    let apart = j.inside p (pq, NotIn-left p ps (r ∷ rs) away) in
    record {
      last = j.last;
      joined = j.joined;
      found = rw (get_jump_lem code p hp, next, not_end q) j.found;
      fixed = j.fixed;
      inside = λ x (other, out). j.inside x out;
      chain = link (rw (j.fixed.size) hp) (rw (j.fixed.others p apart) next) j.chain;
    }

-- What joining the lists at `ps` and `rs` gives: one list, at `ps` and then `rs`, in code of the same
-- length with the same operation codes and fields A, and with the same words outside `ps`.
pub record OneList (code : List Instruction) (ps rs : List ℕ) (r : List Instruction × ℤ)
    : Type 0 where
  pub chain : Chain r.0 r.1 (ps ++ rs)
  pub size : length r.0 ≡ length code
  pub fields : SameBut code r.0
  pub words : AreWords r.0
  pub others : (x : ℕ) → NotIn x ps → get_or r.0 x 0 ≡ get_or code x 0

unchanged : (code : List Instruction) → SameBut code code
unchanged code q = (refl, refl)

-- Two lists without a common position, the second within reach of the first, are joined into one
-- with the positions of both in their order, with any fuel beyond the length of the first. Every
-- word that is not at a position of the first list stays, and so do the operation codes and fields A.
pub concat_jump_list-OneList :
    (fuel : ℕ) (code : List Instruction) (left right : ℤ) (ps rs : List ℕ)
    → Chain code left ps
    → Chain code right rs
    → Distinct (ps ++ rs)
    → InReach right ps
    → AreWords code
    → length ps < fuel
    → (r : List Instruction × ℤ) × (concat_jump_list fuel code left right ≡ ok r)
      × OneList code ps rs r
unfolding concat_jump_list
concat_jump_list-OneList fuel code left right ps [] c c' d reach w h =
    let e = Chain-none c' in
    (
      (code, left),
      rw e refl,
      record {
        chain = rw append-nil c;
        size = refl;
        fields = unchanged code;
        words = w;
        others = λ x out. refl;
      },
    )
concat_jump_list-OneList fuel code left right [] (r ∷ rs) c c' d reach w h =
    let e = Chain-none c in
    let (there, hr, rest) = Chain-head c' in
    (
      (code, right),
      rw (e, there, not_end r) refl,
      record {
        chain = c';
        size = refl;
        fields = unchanged code;
        words = w;
        others = λ x out. refl;
      },
    )
concat_jump_list-OneList fuel code left right (p ∷ ps) (r ∷ rs) c c' d reach w h =
    let (here, hp, rest) = Chain-head c in
    let (there, hr, rest') = Chain-head c' in
    let j =
      join fuel code p ps r rs (rw here at c) (rw there at c') d
        (subst (λ (t : ℤ). InReach t (p ∷ ps)) there reach) w (omega arith) in
    (
      (j.joined, left),
      rw (there, here, not_end p, not_end r, j.found, j.fixed.run) refl,
      record {
        chain = rw here j.chain;
        size = j.fixed.size;
        fields = j.fixed.fields;
        words = j.fixed.words;
        others = λ x out. j.fixed.others x (j.inside x out);
      },
    )
