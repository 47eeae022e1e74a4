-- ===== src/Vm/Safety.antt =====
-- The safety of the machine: the invariant of its state, and its proofs, part by part.
pub mod Invariant
pub mod Stack
pub mod Access
pub mod Number
pub mod Frames
pub mod Enter
pub mod Call
pub mod Run
pub mod Load
pub mod Start
pub mod Whole
