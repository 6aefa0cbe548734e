-- ===== src/Serving.antt =====
-- src/decent_registry/dht/serving_eligibility.py: the streams and the routing table of the DHT.
pub mod Frames
pub mod Deadline
pub mod Inbound
pub mod Messages
pub mod Outbound
pub mod Eligibility
