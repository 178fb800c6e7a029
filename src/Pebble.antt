-- ===== src/Pebble.antt =====
-- pebble/src: the checkpoint manager's parts.
pub mod Game
pub mod Manifest
pub mod Warm
pub mod Branch
pub mod Dag
pub mod Strategy
pub mod Tiers
pub mod Manager
mod Tests
