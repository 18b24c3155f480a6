-- ===== src/Ext2.antt =====
-- The reader of ext2 images of project 3a.
pub mod Image
pub mod Free
pub mod Indirect
pub mod Inode
pub mod Dirent
pub mod Scan
pub mod Csv
