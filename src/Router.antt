-- ===== src/Router.antt =====
-- The buffer router (src/router): its parts, one module to each.
pub mod Shm
pub mod Protocol
pub mod Outbox
pub mod State
pub mod Holds
pub mod Buffers
pub mod Messages
pub mod Listen
pub mod Frame
pub mod Keeps
pub mod Limits
pub mod Memory
pub mod Delivery
pub mod References
pub mod Pids
pub mod Fuel
pub mod Faults
mod Tests
