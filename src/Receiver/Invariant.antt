-- ===== src/Receiver/Invariant.antt =====
-- What holds of the receiver (tools/receiver/receiver.cpp) at all times.
pub mod File
pub mod Running
pub mod Datagram
pub mod Command
pub mod Loop
pub mod Exit
