-- ===== src/Journey.antt =====
-- internal/journey: graphs of customer journeys, their validation, and their execution.
pub mod Graph
pub mod Config
pub mod Schedule
pub mod Reachable
pub mod Outgoing
pub mod Validate
pub mod Runs
pub mod Store
pub mod Choose
pub mod Message
pub mod Execute
pub mod Parse
pub mod Runtime
mod Examples
