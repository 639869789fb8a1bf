-- ===== src/Tests.antt =====
-- Runs of the modelled code, and the theorems at concrete inputs.
mod Numbers
mod Words
mod Functions
mod Collector
mod Stacks
mod Tables
mod Captures
mod JumpLists
