-- ===== src/Parte1/Locking.antt =====
-- The locks that the calls of Parte1/tecnicofs-v2 take, in fs/operations.c and fs/state.c. A function
-- is modelled by what it does to the locks alone, with its tests left open, so that every path through
-- the code is one of the program's.
pub mod Calls
pub mod Order
pub mod Threads
pub mod Progress
pub mod Exclusion
pub mod Termination
mod Tests
