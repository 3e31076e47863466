-- ===== src/Parte1/Sound.antt =====
-- Sequences of calls of Parte1/tecnicofs-v2, one call at a time, and what holds of the file system
-- between two of them.
pub mod Untouched
pub mod Defs
pub mod Writes
pub mod Transfers
pub mod Creates
pub mod Opens
pub mod Reached
