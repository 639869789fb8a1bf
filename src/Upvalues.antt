-- ===== src/Upvalues.antt =====
-- The open upvalues of a state (src/core/upvalue.cpp, src/vm/state/lua_state.cpp).
pub mod Cells
pub mod Links
pub mod Values
pub mod Finding
pub mod Insertion
pub mod Inserted
pub mod Sharing
pub mod Closing
pub mod Closed
