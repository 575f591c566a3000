-- ===== src/Instances.antt =====
-- The V-Ray instances of one process: src/lib/vfh_vray_instances.cpp.
pub mod Pool
pub mod Slots
pub mod Invariant
pub mod Lifetime
