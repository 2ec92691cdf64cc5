-- ===== src/Locator.antt =====
-- src/core/profile_locator.cpp: where the profiles of an installation are.
pub mod Paths
pub mod Status
pub mod Roots
pub mod Search
pub mod Links
pub mod Candidates
pub mod Contained
