-- ===== src/Catalog.antt =====
-- src/catalog.ts: the Bazaar catalog, which binds a resource to the address that its first
-- settlement paid, and moves a binding only on proof. Texts are lists of UTF-16 code units.
pub mod Key
pub mod Sanitize
pub mod State
pub mod Settlement
pub mod Upsert
pub mod Verify
pub mod Displace
pub mod Rotation
pub mod Untouched
pub mod Frame
pub mod Events
pub mod Hook
pub mod Memory
pub mod Owner
pub mod Refusal
pub mod Steadiness
pub mod Agreement
pub mod Capacity
pub mod Browse
pub mod Load
pub mod Tests
