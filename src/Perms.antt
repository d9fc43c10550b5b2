-- ===== src/Perms.antt =====
-- internal/perms: permission sets and the names of the built-in roles.
pub mod Set
pub mod Roles
