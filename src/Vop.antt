-- ===== src/Vop.antt =====
-- V-Ray nodes of a VOP network: src/vop/vop_node_base.cpp, and the node of OSL code.
pub mod Sockets
pub mod Osl
