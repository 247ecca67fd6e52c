-- ===== src/Place.antt =====
-- modules/place of services/platform/src: the places that partners manage and what follows from
-- their changes.
pub mod Management
mod Memory
pub mod Registration
pub mod Relay
pub mod Reviews
