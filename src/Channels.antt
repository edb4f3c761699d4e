-- ===== src/Channels.antt =====
-- graphengine/channels: the channel types, the interface over them, and the registry.
pub mod Common
pub mod LastValue
pub mod AnyValue
pub mod EphemeralValue
pub mod UntrackedValue
pub mod Topic
pub mod Barrier
pub mod BarrierAfterFinish
pub mod LastValueAfterFinish
pub mod Aggregate
pub mod Reducers
pub mod Plain
pub mod Channel
pub mod Registry
pub mod Restore
pub mod Create
mod Tests
