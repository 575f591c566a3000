-- ===== src/Tests.antt =====
-- Concrete runs: sample data, and each module's results on it.
mod Sample
mod Attrs
mod Processes
mod Details
mod Devices
mod Exports
mod Uploads
mod Parameters
mod Views
mod Meshes
mod Osl
mod Ramps
mod Overrides
