-- ===== src/Verifier/Trees.antt =====
-- A whole accepted tree of prototypes: every function in it, its depth, and the totals that the
-- verifier counts (src/runtime/bytecode_verifier.cpp).
use lua.Prelude.{ℕ, ◌+◌, ◌≤◌, ◌≡◌, subst, String, length, arith}
use lua.Prelude.Result.{ok, >>=-eq-ok}
use lua.Proto.{Info, Proto, proto, Children, done, child, null}
use lua.Verifier.Checks.{add_within}
use lua.Verifier.Marking.{Words}
use lua.Verifier.Walk.{
  BytecodeVerifierLimits, Counts, verify_counts, verify_body, verify_proto, verify_children, verify,
}

-- Every function of the tree is at an allowed depth, has all its children and an accepted body.
abbrev mutual
  pub Verified : BytecodeVerifierLimits → ℕ → Proto → Type 0
  Verified limits depth (proto p cs) =
      (depth ≤ limits.max_proto_depth)
      × ((words : Words) × (verify_body p cs ≡ ok words))
      × AllVerified limits (depth + 1) cs

  pub AllVerified : BytecodeVerifierLimits → ℕ → Children → Type 0
  AllVerified limits depth done = Unit
  AllVerified limits depth (child t cs) = Verified limits depth t × AllVerified limits depth cs
  AllVerified limits depth (null cs) = ⊥

-- A number of each function, summed over the tree.
abbrev mutual
  pub total : (Info → ℕ) → Proto → ℕ
  total f (proto p cs) = f p + total_children f cs

  pub total_children : (Info → ℕ) → Children → ℕ
  total_children f done = 0
  total_children f (child t cs) = total f t + total_children f cs
  total_children f (null cs) = total_children f cs

abbrev pub functions : Info → ℕ
functions p = 1

abbrev pub words : Info → ℕ
words p = length p.code

abbrev pub constants : Info → ℕ
constants p = length p.constants

abbrev pub debug_entries : Info → ℕ
debug_entries p = length p.line_info + length p.loc_vars + length p.upvalue_names

-- The counters moved on by the totals of what was walked.
pub record Counted (f : (Info → ℕ) → ℕ) (k k' : Counts) : Type 0 where
  pub protos : k'.proto_count ≡ k.proto_count + f functions
  pub instructions : k'.instruction_count ≡ k.instruction_count + f words
  pub constant_total : k'.constant_count ≡ k.constant_count + f constants
  pub entries : k'.debug_entry_count ≡ k.debug_entry_count + f debug_entries

pub record Within (limits : BytecodeVerifierLimits) (k : Counts) : Type 0 where
  pub protos : k.proto_count ≤ limits.max_proto_count
  pub instructions : k.instruction_count ≤ limits.max_instruction_count
  pub constant_total : k.constant_count ≤ limits.max_constant_count
  pub entries : k.debug_entry_count ≤ limits.max_debug_entries

add_within_lem :
    (p : Info) (value total limit r : ℕ) (message : String)
    → add_within p value total limit message ≡ ok r
    → (r ≡ total + value) × (r ≤ limit)
unfolding add_within
add_within_lem p value total limit r message e = ground arith

verify_counts_lem :
    (limits : BytecodeVerifierLimits) (p : Info) (depth : ℕ) (k k' : Counts)
    → verify_counts limits p depth k ≡ ok k'
    → (depth ≤ limits.max_proto_depth) × Counted (λ f. f p) k k' × Within limits k'
unfolding verify_counts
verify_counts_lem limits p depth k k' e = ground arith

module _ (limits : BytecodeVerifierLimits) where
  mutual
    unfolding verify_proto verify_children

    verify_proto-Verified :
        (t : Proto) (depth : ℕ) (k k' : Counts)
        → verify_proto limits t depth k ≡ ok k'
        → Verified limits depth t × Counted (λ f. total f t) k k' × Within limits k'
    verify_proto-Verified (proto p cs) depth k k' e =
        let (k₁, counted, e₁) = >>=-eq-ok (verify_counts limits p depth k) _ e in
        let (ws, body, e₂) = >>=-eq-ok (verify_body p cs) _ e₁ in
        let (deep, own, within) = verify_counts_lem limits p depth k k₁ counted in
        let (all, rest, within') = verify_children-Verified p cs (depth + 1) k₁ k' within e₂ in
        ((deep, (ws, body), all), omega arith, within')

    verify_children-Verified :
        (p : Info) (cs : Children) (depth : ℕ) (k k' : Counts)
        → Within limits k
        → verify_children limits p cs depth k ≡ ok k'
        → AllVerified limits depth cs × Counted (λ f. total_children f cs) k k' × Within limits k'
    verify_children-Verified p done depth k k' w e =
        let same : k ≡ k' = cc in
        (tt, subst (Counted (λ f. 0) k) same (omega arith), subst (Within limits) same w)
    verify_children-Verified p (child t cs) depth k k' w e =
        let (k₁, first, rest) = >>=-eq-ok (verify_proto limits t depth k) _ e in
        let (here, own, within) = verify_proto-Verified t depth k k₁ first in
        let (all, others, within') = verify_children-Verified p cs depth k₁ k' within rest in
        ((here, all), omega arith, within')
    verify_children-Verified p (null cs) depth k k' w e = cc

  -- When a tree of prototypes is accepted, every function in it has an accepted body, no child is
  -- a null pointer, none is nested deeper than the limit, and the numbers of functions, words,
  -- constants and debug entries of the whole tree are those counted, each within its limit.
  pub verify-Verified :
      (root : Proto) (k : Counts)
      → verify limits root ≡ ok k
      → Verified limits 1 root
        × (k.proto_count ≡ total functions root)
        × (k.instruction_count ≡ total words root)
        × (k.constant_count ≡ total constants root)
        × (k.debug_entry_count ≡ total debug_entries root)
        × Within limits k
  unfolding verify
  verify-Verified root k e =
      let (all, counted, within) = verify_proto-Verified root 1 _ k e in
      (all, omega arith, omega arith, omega arith, omega arith, within)
