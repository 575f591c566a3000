-- ===== src/Ramp.antt =====
-- Ramps and curves of parameters: src/export/utils/vfh_tex_utils.h and vfh_tex_utils.cpp.
pub mod Points
pub mod Colors
pub mod Colored
pub mod Curve
pub mod Spline
pub mod Handles
pub mod Arrays
pub mod Solved
pub mod Written
pub mod Curves
pub mod Placed
pub mod Handled
pub mod Overflow
