-- ===== src/Parte2.antt =====
-- Parte2/tecnicofs_ex2: files of one block, calls under one lock, and a counter of open files.
pub mod State
pub mod Tables
pub mod Operations
pub mod Transfer
pub mod Counter
pub mod Blocking
pub mod Shutdown
pub mod Server
pub mod Client
pub mod Remote
mod Tests
