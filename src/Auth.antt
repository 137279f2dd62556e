-- ===== src/Auth.antt =====
-- auth/: how a request's path becomes resource states, and who may access them.
pub mod Path
pub mod Helpers
pub mod Resolve
pub mod Requests
pub mod Packages
pub mod Tokens
