-- ===== src/Verifier/Safety.antt =====
-- Execution of an accepted function stays on its instructions (src/runtime/bytecode_verifier.cpp).
use lua.Prelude.{◌≡◌, false, length, replicate, arith}
use lua.Prelude.Result.{ok}
use lua.Proto.{Info, Children}
use lua.Verifier.Flow.{Flow}
use lua.Verifier.Marking.{Words, mark_from}
use lua.Verifier.Walk.{verify_metadata, verify_from, verify_body}

-- The parts of an accepted body.
pub verify_body_parts :
    (p : Info) (cs : Children) (words : Words)
    → verify_body p cs ≡ ok words
    → (verify_metadata p ≡ ok tt)
      × (mark_from p cs (length p.code) 0 (replicate (length p.code) false) ≡ ok words)
      × (verify_from p cs words (length p.code) 0 ≡ ok tt)
unfolding verify_body
verify_body_parts p cs words e = ground arith
