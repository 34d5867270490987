-- ===== src/Shared.antt =====
-- src/shared: what the program logs, and the texts that it stores.
pub mod Logging
pub mod Sanitizer
pub mod Filter
