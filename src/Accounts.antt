-- ===== src/Accounts.antt =====
-- modules/permission, modules/user and core/auth of services/platform/src: the roles of users, their
-- accounts and their tokens.
mod Memory
mod Tests
pub mod Roles
pub mod Users
pub mod Auth
