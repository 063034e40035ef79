-- ===== src/Queues.antt =====
-- The queueing disciplines of sim/: what they share, and a module for each.
pub mod Effects
pub mod Utilization
pub mod Port
pub mod History
pub mod DropTail
pub mod Pause
pub mod Ecn
pub mod Lossless
pub mod LosslessInput
pub mod LosslessOutput
pub mod Composite
pub mod Priority
pub mod Aeolus
pub mod Random
pub mod Pull
pub mod FifoPull
pub mod Fair
pub mod EcnPrio
pub mod CtrlPrio
pub mod CutPayload
