-- ===== src/Pregel.antt =====
-- graphengine/pregel: the retries of a node, the choice of the next tasks, the writes of a step and
-- the loop of the engine.
pub mod Retry
pub mod Schedule
pub mod Output
pub mod Writes
pub mod Run
mod Tests
mod RunTests
