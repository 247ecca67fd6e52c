-- ===== src/Place/Management.antt =====
-- modules/place/management: the aggregate of a place, its storage and its use cases.
pub mod Entities
pub mod Aggregate
pub mod Workflow
pub mod Storage
pub mod UseCases
mod Tests
