-- ===== src/Gc.antt =====
-- The garbage collector (src/gc): the heap and the collector's state, marking, barriers, sweeping.
pub mod Accounting
pub mod Heap
pub mod Marking
pub mod Objects
pub mod Sweep
pub mod Weak
pub mod Incremental
pub mod Shades
pub mod Queue
pub mod Rounds
pub mod Tricolor
pub mod Work
pub mod Live
pub mod Marked
pub mod Barriers
pub mod Register
pub mod Deferred
pub mod Passes
pub mod Frames
pub mod Survivors
pub mod SecondPass
pub mod Collected
pub mod Leaving
pub mod SweepSteps
pub mod AtomicStep
pub mod Ranks
pub mod Progress
pub mod Cycle
pub mod Leftover
pub mod Clearing
pub mod Cleared
