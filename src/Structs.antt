-- ===== src/Structs.antt =====
-- structs.rs: the data model of the proxy.
pub mod Permission
pub mod Format
pub mod Object
pub mod States
pub mod Creation
pub mod Users
pub mod Requests
pub mod Messages
pub mod Cors
