-- ===== src/Scheduling.antt =====
-- app/modules/scheduling: the availability slots.
pub mod Repository
pub mod Writes
pub mod Service
pub mod Bulk
pub mod Weekly
pub mod Split
pub mod Disjoint
