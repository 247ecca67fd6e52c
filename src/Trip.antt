-- ===== src/Trip.antt =====
-- The trip module of the platform.
pub mod TimeSlot
pub mod DateRange
pub mod Entities
pub mod Aggregate
pub mod Ports
pub mod Handlers
pub mod Route
mod Memory
mod Tests
