-- ===== src/Tests.antt =====
-- Runs of the definitions on concrete inputs, and instances of the theorems at them.
mod Data
mod WireTests
mod BridgeTests
mod ReassemblerTests
mod CaptureTests
mod ReceiverTests
mod ConfigTests
mod WebTests
mod ControlTests
mod TelemetryTests
