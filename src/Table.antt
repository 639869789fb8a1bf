-- ===== src/Table.antt =====
-- Lua tables (src/core/table.hpp, table.cpp): an array part and an open-addressing hash part.
pub mod Nodes
pub mod Probe
pub mod Place
pub mod Slots
pub mod Counts
pub mod Insert
pub mod Entries
pub mod Moving
pub mod Rehash
pub mod Ready
pub mod Store
pub mod Remove
pub mod Whole
pub mod Keys
pub mod GetSet
pub mod Growth
pub mod SetKey
pub mod Length
pub mod Border
pub mod Next
