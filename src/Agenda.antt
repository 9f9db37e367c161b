-- ===== src/Agenda.antt =====
-- fuse_node.c: the operations that change the tree of nodes and the files of the vdir together.
pub mod Create
pub mod Delete
pub mod Rename
pub mod Sync
