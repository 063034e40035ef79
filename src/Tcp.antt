-- ===== src/Tcp.antt =====
-- TCP: the sink in `Sink`, of sim/tcp.h and sim/tcp.cpp, and the source in `Source`.
pub mod Sink
pub mod Source
