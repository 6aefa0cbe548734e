-- ===== src/Encoding.antt =====
-- src/decent_registry/encoding.py
pub mod Authorization
pub mod Update
