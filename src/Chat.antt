-- ===== src/Chat.antt =====
-- modules/chat of services/platform/src: direct conversations between two users.
pub mod Key
mod Memory
mod Tests
pub mod Entities
pub mod Storage
pub mod Service
pub mod Laws
pub mod Unread
pub mod Sending
pub mod Detail
pub mod Keeping
pub mod Sharing
pub mod Opening
