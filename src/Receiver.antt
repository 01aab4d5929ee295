-- ===== src/Receiver.antt =====
-- The receiver of tools/receiver: what it counts, what it does with a datagram, with a command and
-- when its timers run out. Sockets and clocks are not code of the repository: what they return in a
-- step is an argument of the step. Log output is left out.
pub mod Stats
pub mod State
pub mod Datagram
pub mod Command
pub mod Poll
pub mod Switch
pub mod Run
pub mod Invariant
