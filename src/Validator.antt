-- ===== src/Validator.antt =====
-- src/decent_registry/record_validator.py
pub mod Common
pub mod Transition
pub mod Accepted
pub mod Providers
pub mod Identities
