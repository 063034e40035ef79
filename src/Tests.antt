-- ===== src/Tests.antt =====
-- The theorems at concrete inputs.
mod Samples
mod Events
mod Arrivals
mod Frames
mod Credits
mod Flows
mod Turns
mod Eqds
mod Reliable
