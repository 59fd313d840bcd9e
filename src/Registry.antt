-- ===== src/Registry.antt =====
-- src/watlowlib/registry: parameter rows and their index.
pub mod Units
pub mod Families
pub mod Pattern
pub mod Range
pub mod Spec
pub mod Index
pub mod Rows
pub mod Loader
