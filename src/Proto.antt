-- ===== src/Proto.antt =====
-- Function prototypes, as far as the verifier and the machine read them (src/core/function.hpp).
use lua.Prelude.{ℕ, suc, zero, String, List, Option, none, some, Bool, not, ◌==◌}
use lua.Prelude.Int.{ℤ}
use lua.Opcode.Instruction.{Instruction}

-- The tag of a `Value`. A constant's payload is read by no definition here.
pub data ValueType : Type 0 where
  nil boolean light_userdata number string table function userdata thread : ValueType

pub record LocVar : Type 0 where
  pub varname : Option String
  pub startpc : ℤ
  pub endpc : ℤ
  pub reg : ℤ

-- The fields of a `Proto` but its children. `source` is `none` for a null pointer.
pub record Info : Type 0 where
  pub num_params : ℕ
  pub vararg_flags : ℕ
  pub max_stack_size : ℕ
  pub num_upvalues : ℕ
  pub source : Option String
  pub line_defined : ℤ
  pub code : List Instruction
  pub constants : List ValueType
  pub line_info : List ℤ
  pub loc_vars : List LocVar
  pub upvalue_names : List (Option String)

-- `null` is a null pointer among the children.
mutual
  pub data Proto : Type 0 where
    proto : Info → Children → Proto

  pub data Children : Type 0 where
    done : Children
    child : Proto → Children → Children
    null : Children → Children

abbrev pub vararg_hasarg : ℕ
vararg_hasarg = 1

abbrev pub vararg_isvararg : ℕ
vararg_isvararg = 2

abbrev pub vararg_needsarg : ℕ
vararg_needsarg = 4

unfoldable pub is_vararg : Info → Bool
is_vararg p = not (p.vararg_flags == 0)

unfoldable pub info : Proto → Info
info (proto i cs) = i

unfoldable pub get_sub_proto_count : Children → ℕ
get_sub_proto_count done = 0
get_sub_proto_count (child p cs) = suc (get_sub_proto_count cs)
get_sub_proto_count (null cs) = suc (get_sub_proto_count cs)

-- `none` is a null pointer, which the source also gives beyond the last child.
unfoldable pub get_sub_proto : Children → ℕ → Option Proto
get_sub_proto done n = none
get_sub_proto (child p cs) zero = some p
get_sub_proto (null cs) zero = none
get_sub_proto (child p cs) (suc n) = get_sub_proto cs n
get_sub_proto (null cs) (suc n) = get_sub_proto cs n
