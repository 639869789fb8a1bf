-- ===== src/Tests/Words.antt =====
-- Instruction words (src/compiler/opcode.hpp) at concrete operands.
use lua.Prelude.{◌≡◌, ◌<◌, ◌^◌, arith}
use lua.Prelude.Int.{pos, negsuc}
use lua.Opcode.Instruction.{
  create_abc, create_asbx, get_opcode, getarg_a, getarg_b, getarg_c, getarg_sbx, setarg_a, setarg_b,
  setarg_c, setarg_sbx,
}
use lua.Opcode.Metadata.{add, jmp}
use lua.Opcode.RoundTrip.{
  fields-create_abc, create_abc-fields, fields-create_asbx, fields-setarg_sbx, fields-setarg,
}

fields-create_abc_example :
    let i = create_abc add 3 256 17 in
    (get_opcode i ≡ add) × (getarg_a i ≡ 3) × (getarg_b i ≡ 256) × (getarg_c i ≡ 17)
fields-create_abc_example =
    fields-create_abc add 3 256 17 tt (omega arith) (omega arith) (omega arith)

create_abc-fields_example :
    create_abc (get_opcode 123456789) (getarg_a 123456789) (getarg_b 123456789) (getarg_c 123456789)
    ≡ 123456789
create_abc-fields_example = create_abc-fields 123456789 (omega arith)

fields-create_asbx_example :
    let i = create_asbx jmp 0 (negsuc 4) in
    (get_opcode i ≡ jmp) × (getarg_a i ≡ 0) × (getarg_sbx i ≡ negsuc 4)
fields-create_asbx_example =
    fields-create_asbx jmp 0 (negsuc 4) tt (omega arith) (omega arith, omega arith)

fields-setarg_sbx_example :
    let j = setarg_sbx 2147467286 (pos 7) in
    (getarg_sbx j ≡ pos 7)
    × (get_opcode j ≡ get_opcode 2147467286)
    × (getarg_a j ≡ getarg_a 2147467286)
    × (j < 2 ^ 32)
fields-setarg_sbx_example =
    fields-setarg_sbx 2147467286 (pos 7) (omega arith) (omega arith, omega arith)

fields-setarg_example :
    (setarg_a 123456789 1
      ≡ create_abc (get_opcode 123456789) 1 (getarg_b 123456789) (getarg_c 123456789))
    × (setarg_b 123456789 2
        ≡ create_abc (get_opcode 123456789) (getarg_a 123456789) 2 (getarg_c 123456789))
    × (setarg_c 123456789 3
        ≡ create_abc (get_opcode 123456789) (getarg_a 123456789) (getarg_b 123456789) 3)
fields-setarg_example =
    fields-setarg 123456789 1 2 3 (omega arith) (omega arith) (omega arith) (omega arith)
