-- ===== src/Events.antt =====
-- internal/events: the columns and payloads (payload.go), the recorder (emitter.go) and the bus
-- (bus.go).
pub mod Codec
pub mod Recorder
pub mod Unchanged
pub mod Stream
pub mod Bus
pub mod Diff
pub mod LabelDiff
