-- ===== src/Eqds.antt =====
-- EQDS, a transport whose receivers hand out credit: what its sinks keep of the packets that have
-- arrived, the pacer that pulls from the sources, the NIC that they share, and what a source does with
-- an acknowledgement.
pub mod Packets
pub mod Pulls
pub mod Acks
pub mod Pacer
pub mod Sink
pub mod Nic
pub mod Source
pub mod Reliable
