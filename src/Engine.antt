-- ===== src/Engine.antt =====
-- The engine's runtime state and the post-scan phases: engine/state.py and engine/run.py.
pub mod State
pub mod Broker
pub mod Stream
pub mod Feed
pub mod Subscribers
pub mod Phase
pub mod Phases
pub mod Alarms
pub mod Errors
pub mod Clock
pub mod Display
pub mod Main
pub mod Degraded
mod Tests
