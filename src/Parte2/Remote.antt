-- ===== src/Parte2/Remote.antt =====
-- A client of Parte2/tecnicofs_ex2/client/tecnicofs_client_api.c and the server of
-- Parte2/tecnicofs_ex2/fs/tfs_server.c together: one call of a mounted client, from its request to its
-- answer.
pub mod Replies
pub mod Results
pub mod Content
pub mod Link
pub mod Calls
pub mod Transfers
pub mod Ends
pub mod Mounts
mod Tests
