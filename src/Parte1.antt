-- ===== src/Parte1.antt =====
-- Parte1/tecnicofs-v2/fs: a file system of files with direct and indirect blocks.
pub mod State
pub mod Blocks
pub mod OpenFiles
pub mod Inodes
pub mod Operations
pub mod Transfer
pub mod Ownership
pub mod External
mod Tests
pub mod Locking
pub mod Sound
