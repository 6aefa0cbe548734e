-- ===== src/Tests.antt =====
-- Runs of the model on small data, and each theorem at an input that meets its hypotheses.
mod Toy
mod Wire
mod Lineages
mod Records
mod Stores
mod Providers
mod Streams
mod Peers
mod Validators
mod Services
mod Bundles
