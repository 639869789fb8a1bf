-- ===== src/Stack.antt =====
-- The value stack of a thread (src/vm/state/stack.hpp, stack.cpp).
pub mod Slots
pub mod Bounds
pub mod Contents
