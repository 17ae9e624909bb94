-- ===== src/Fat32.antt =====
-- kernel/fat32.cpp: the file system on the disk. `Table` has the mount and the table of clusters,
-- `ShortName` the names of eight and three characters.
pub mod Table
pub mod ShortName
pub mod Entry
pub mod NameLaws
mod Tests
