-- ===== src/Vop/Osl.antt =====
-- The node of OSL code: src/vop/vop_node_osl.h and src/vop/vop_node_osl.cpp.
pub mod Query
pub mod Node
pub mod Update
pub mod Kinds
pub mod Inputs
pub mod Export
pub mod Exported
pub mod Updated
pub mod Slots
pub mod SlotNames
