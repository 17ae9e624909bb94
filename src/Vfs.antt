-- ===== src/Vfs.antt =====
-- kernel/vfs.h and kernel/vfs.cpp: the tree of nodes and its file system in memory. `Nodes` has the
-- pool of nodes and the operations of the file system in memory, and `Path` the calls that go
-- through a node's operations, paths, and the current directory.
pub mod Nodes
pub mod Path
pub mod Content
pub mod Outcome
pub mod Tree
pub mod Add
pub mod Resolve
pub mod Reach
mod Tests
