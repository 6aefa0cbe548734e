-- ===== src/Store/Stale.antt =====
-- src/decent_registry/durable_store.py: a later call of `put_if_newer` with no larger number.
use decent_registry.Prelude.{bytes_eq}
