-- ===== src/Provider.antt =====
-- src/decent_registry/provider_schema.py
pub mod Chars
pub mod Uri
pub mod Payload
pub mod Wire
