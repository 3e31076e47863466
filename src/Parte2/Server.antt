-- ===== src/Parte2/Server.antt =====
-- Parte2/tecnicofs_ex2/fs/tfs_server.c: sessions, the thread that receives requests, and the threads
-- that serve them.
pub mod State
pub mod Sessions
pub mod Handlers
pub mod Threads
pub mod Delivery
pub mod Answers
pub mod Mount
pub mod Buffers
pub mod System
