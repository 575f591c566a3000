-- ===== src/Gpu.antt =====
-- The choice of GPU devices: src/utils/vfh_gpu_device_select.cpp.
pub mod Select
pub mod Stored
