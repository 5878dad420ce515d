-- ===== src/Linked/Erase.antt =====
-- The erasures of a list: a node is unlinked at the place that points to it.
pub mod Unlink
pub mod Nodes
pub mod Values
