-- ===== src/Tips.antt =====
-- src/tips/tips.service.ts
pub mod Create
pub mod Query
pub mod Verification
pub mod Verify
pub mod Listing
