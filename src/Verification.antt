-- ===== src/Verification.antt =====
-- src/decent_registry/verification.py
pub mod Candidate
pub mod Transitions
pub mod Replay
pub mod Legacy
