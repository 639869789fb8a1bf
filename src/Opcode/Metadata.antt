-- ===== src/Opcode/Metadata.antt =====
-- The enum `OpCode`, and `kOpcodeMetadata` with its accessors (src/compiler/opcode.hpp, opcode.cpp).
use lua.Prelude.{ℕ, Bool, true, false, String, List, [], ◌∷◌, ltb, ◌==◌, if◌then◌else◌, get_or}

-- The enumerators in order. `unnamed` holds the values that the cast of a six-bit field can give
-- and that no enumerator names.
pub data OpCode : Type 0 where
  move loadk loadbool loadnil getupval getglobal gettable setglobal setupval settable : OpCode
  newtable self add sub mul div mod_op pow unm not_op len concat jmp eq lt le test testset : OpCode
  call tailcall return forloop forprep tforloop setlist close closure vararg : OpCode
  unnamed : ℕ → OpCode

-- `static_cast<u8>` of an operation code.
unfoldable pub to_u8 : OpCode → ℕ
to_u8 move = 0
to_u8 loadk = 1
to_u8 loadbool = 2
to_u8 loadnil = 3
to_u8 getupval = 4
to_u8 getglobal = 5
to_u8 gettable = 6
to_u8 setglobal = 7
to_u8 setupval = 8
to_u8 settable = 9
to_u8 newtable = 10
to_u8 self = 11
to_u8 add = 12
to_u8 sub = 13
to_u8 mul = 14
to_u8 div = 15
to_u8 mod_op = 16
to_u8 pow = 17
to_u8 unm = 18
to_u8 not_op = 19
to_u8 len = 20
to_u8 concat = 21
to_u8 jmp = 22
to_u8 eq = 23
to_u8 lt = 24
to_u8 le = 25
to_u8 test = 26
to_u8 testset = 27
to_u8 call = 28
to_u8 tailcall = 29
to_u8 return = 30
to_u8 forloop = 31
to_u8 forprep = 32
to_u8 tforloop = 33
to_u8 setlist = 34
to_u8 close = 35
to_u8 closure = 36
to_u8 vararg = 37
to_u8 (unnamed n) = n

-- `==` on operation codes
abbrev pub is_opcode : OpCode → OpCode → Bool
is_opcode a b = to_u8 a == to_u8 b

abbrev pub num_opcodes : ℕ
num_opcodes = 38

pub data OpMode : Type 0 where
  i_abc i_abx i_asbx : OpMode

pub data OpArgMask : Type 0 where
  op_arg_n op_arg_u op_arg_r op_arg_k : OpArgMask

pub data OpcodeGroup : Type 0 where
  in_unknown in_data_move in_global in_upvalue in_table in_arithmetic in_unary : OpcodeGroup
  in_branch in_comparison in_call in_loop in_closure in_vararg : OpcodeGroup

pub record OpcodeMetadata : Type 0 where
  pub opcode : OpCode
  pub name : String
  pub mode : OpMode
  pub b_mode : OpArgMask
  pub c_mode : OpArgMask
  pub sets_a : Bool
  pub is_test : Bool
  pub group : OpcodeGroup
  pub may_invoke_metamethod : Bool

make_opcode_metadata :
    OpCode
    → String
    → OpMode
    → OpArgMask
    → OpArgMask
    → Bool
    → Bool
    → OpcodeGroup
    → Bool
    → OpcodeMetadata
make_opcode_metadata opcode name mode b c sets tests group meta = record {
  opcode = opcode;
  name = name;
  mode = mode;
  b_mode = b;
  c_mode = c;
  sets_a = sets;
  is_test = tests;
  group = group;
  may_invoke_metamethod = meta;
}

k_opcode_metadata : List OpcodeMetadata
unfolding make_opcode_metadata
k_opcode_metadata =
    make_opcode_metadata move "MOVE" i_abc op_arg_r op_arg_n true false in_data_move false
    ∷ make_opcode_metadata loadk "LOADK" i_abx op_arg_k op_arg_n true false in_data_move false
    ∷ make_opcode_metadata loadbool "LOADBOOL" i_abc op_arg_u op_arg_u true false in_data_move false
    ∷ make_opcode_metadata loadnil "LOADNIL" i_abc op_arg_r op_arg_n true false in_data_move false
    ∷ make_opcode_metadata getupval "GETUPVAL" i_abc op_arg_u op_arg_n true false in_upvalue false
    ∷ make_opcode_metadata getglobal "GETGLOBAL" i_abx op_arg_k op_arg_n true false in_global false
    ∷ make_opcode_metadata gettable "GETTABLE" i_abc op_arg_r op_arg_k true false in_table true
    ∷ make_opcode_metadata setglobal "SETGLOBAL" i_abx op_arg_k op_arg_n false false in_global false
    ∷ make_opcode_metadata setupval "SETUPVAL" i_abc op_arg_u op_arg_n false false in_upvalue false
    ∷ make_opcode_metadata settable "SETTABLE" i_abc op_arg_k op_arg_k false false in_table true
    ∷ make_opcode_metadata newtable "NEWTABLE" i_abc op_arg_u op_arg_u true false in_table false
    ∷ make_opcode_metadata self "SELF" i_abc op_arg_r op_arg_k true false in_table true
    ∷ make_opcode_metadata add "ADD" i_abc op_arg_k op_arg_k true false in_arithmetic true
    ∷ make_opcode_metadata sub "SUB" i_abc op_arg_k op_arg_k true false in_arithmetic true
    ∷ make_opcode_metadata mul "MUL" i_abc op_arg_k op_arg_k true false in_arithmetic true
    ∷ make_opcode_metadata div "DIV" i_abc op_arg_k op_arg_k true false in_arithmetic true
    ∷ make_opcode_metadata mod_op "MOD" i_abc op_arg_k op_arg_k true false in_arithmetic true
    ∷ make_opcode_metadata pow "POW" i_abc op_arg_k op_arg_k true false in_arithmetic true
    ∷ make_opcode_metadata unm "UNM" i_abc op_arg_r op_arg_n true false in_unary true
    ∷ make_opcode_metadata not_op "NOT" i_abc op_arg_r op_arg_n true false in_unary false
    ∷ make_opcode_metadata len "LEN" i_abc op_arg_r op_arg_n true false in_unary true
    ∷ make_opcode_metadata concat "CONCAT" i_abc op_arg_r op_arg_r true false in_unary true
    ∷ make_opcode_metadata jmp "JMP" i_asbx op_arg_r op_arg_n false false in_branch false
    ∷ make_opcode_metadata eq "EQ" i_abc op_arg_k op_arg_k false true in_comparison true
    ∷ make_opcode_metadata lt "LT" i_abc op_arg_k op_arg_k false true in_comparison true
    ∷ make_opcode_metadata le "LE" i_abc op_arg_k op_arg_k false true in_comparison true
    ∷ make_opcode_metadata test "TEST" i_abc op_arg_r op_arg_u true true in_branch false
    ∷ make_opcode_metadata testset "TESTSET" i_abc op_arg_r op_arg_u true true in_branch false
    ∷ make_opcode_metadata call "CALL" i_abc op_arg_u op_arg_u true false in_call true
    ∷ make_opcode_metadata tailcall "TAILCALL" i_abc op_arg_u op_arg_u true false in_call true
    ∷ make_opcode_metadata return "RETURN" i_abc op_arg_u op_arg_n false false in_call false
    ∷ make_opcode_metadata forloop "FORLOOP" i_asbx op_arg_r op_arg_n true false in_loop false
    ∷ make_opcode_metadata forprep "FORPREP" i_asbx op_arg_r op_arg_n true false in_loop false
    ∷ make_opcode_metadata tforloop "TFORLOOP" i_abc op_arg_n op_arg_u false true in_loop false
    ∷ make_opcode_metadata setlist "SETLIST" i_abc op_arg_u op_arg_u false false in_table false
    ∷ make_opcode_metadata close "CLOSE" i_abc op_arg_n op_arg_n false false in_branch false
    ∷ make_opcode_metadata closure "CLOSURE" i_abx op_arg_u op_arg_n true false in_closure false
    ∷ make_opcode_metadata vararg "VARARG" i_abc op_arg_u op_arg_n true false in_vararg false
    ∷ []

k_unknown_opcode_metadata : OpcodeMetadata
k_unknown_opcode_metadata = record {
  opcode = move;
  name = "UNKNOWN";
  mode = i_abc;
  b_mode = op_arg_n;
  c_mode = op_arg_n;
  sets_a = false;
  is_test = false;
  group = in_unknown;
  may_invoke_metamethod = false;
}

unfoldable pub is_valid_opcode : OpCode → Bool
unfolding to_u8
is_valid_opcode op = ltb (to_u8 op) num_opcodes

unfoldable pub opcode_metadata : OpCode → OpcodeMetadata
unfolding is_valid_opcode k_opcode_metadata k_unknown_opcode_metadata
opcode_metadata op =
    if is_valid_opcode op
    then get_or k_opcode_metadata (to_u8 op) k_unknown_opcode_metadata
    else k_unknown_opcode_metadata

unfoldable pub get_op_mode : OpCode → OpMode
unfolding opcode_metadata
get_op_mode op = (opcode_metadata op).mode

unfoldable pub get_b_mode : OpCode → OpArgMask
unfolding opcode_metadata
get_b_mode op = (opcode_metadata op).b_mode

unfoldable pub get_c_mode : OpCode → OpArgMask
unfolding opcode_metadata
get_c_mode op = (opcode_metadata op).c_mode

unfoldable pub test_a_mode : OpCode → Bool
unfolding opcode_metadata
test_a_mode op = (opcode_metadata op).sets_a

unfoldable pub test_t_mode : OpCode → Bool
unfolding opcode_metadata
test_t_mode op = (opcode_metadata op).is_test

-- The enumerators in order: `static_cast<OpCode>(index)`.
abbrev pub op_codes : List OpCode
op_codes =
    move ∷ loadk ∷ loadbool ∷ loadnil ∷ getupval ∷ getglobal ∷ gettable ∷ setglobal ∷ setupval
    ∷ settable ∷ newtable ∷ self ∷ add ∷ sub ∷ mul ∷ div ∷ mod_op ∷ pow ∷ unm ∷ not_op ∷ len
    ∷ concat ∷ jmp ∷ eq ∷ lt ∷ le ∷ test ∷ testset ∷ call ∷ tailcall ∷ return ∷ forloop ∷ forprep
    ∷ tforloop ∷ setlist ∷ close ∷ closure ∷ vararg ∷ []

-- `static_cast<OpCode>`
unfoldable pub from_u8 : ℕ → OpCode
from_u8 n = get_or op_codes n (unnamed n)
