-- ===== src/Tests.antt =====
-- Runs on small inputs, and the theorems at inputs that exercise the code.
pub mod Data
mod Selection
pub mod Locator
mod Repository
mod Platform
mod Settings
mod Matcher
mod Launcher
mod KeyFile
mod Service
mod Catalog
mod Application
mod Scanner
