-- ===== src/Objects.antt =====
-- internal/controller/objects.go and internal/controller/included-objects: the workloads.
pub mod Kinds
pub mod Pattern
pub mod Lists
pub mod Fetch
pub mod Resources
