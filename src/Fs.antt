-- ===== src/Fs.antt =====
-- src/fs.c, the branches for POSIX.
pub mod Path
pub mod Os
pub mod File
pub mod Disk
pub mod Dir
pub mod Copy
pub mod Balance
pub mod Tests
