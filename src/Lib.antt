-- ===== src/Lib.antt =====
-- TecnicoFS, a file system in memory with one root directory, in two versions: Parte1/tecnicofs-v2
-- (files of up to 266 blocks, reached through ten direct block numbers and one block of block
-- numbers) and Parte2/tecnicofs_ex2 (files of one block, a server and a client).
--
-- The parts, and the files that model them:
--   Config            fs/config.h and the flags of fs/operations.h: the constants.
--   Memory            fs_data as a function from addresses to bytes, with memcpy, strncpy,
--                     strncmp and the int values that lie in it in little-endian order.
--   Memory/Wide       size_t values, texts and copies from one memory to another, in messages.
--   Table             the tables of FREE and TAKEN entries and the search for the first free one.
--   Exclusive         ownership of numbered blocks, without reference to a file system.
--   Directory         the dir_entry_t array of a directory's block, searched and filled.
--   Parte1/State      the static variables of Parte1/tecnicofs-v2/fs/state.c as one record.
--   Parte1/Blocks     data_block_alloc, data_block_free, data_block_get, getNthDataBlock,
--                     allocNthDataBlock, allocNecessaryBlocks, deleteInodeDataBlocks.
--   Parte1/Inodes     state_init, state_destroy, inode_create, inode_delete, inode_get,
--                     add_dir_entry, find_in_dir, test1.
--   Parte1/OpenFiles  the open file table.
--   Parte1/Operations tfs_init, tfs_destroy, tfs_lookup, tfs_open, tfs_close of fs/operations.c.
--   Parte1/Transfer   tfs_write and tfs_read of fs/operations.c, their loops included.
--   Parte1/External   its tfs_copy_to_external_fs; fopen's success and the buffer are parameters.
--   Parte1/Ownership  the well-formedness of a file system (IsWf): each place of an i-node that is
--                     in use holds an allocated block, and no block is held twice. Its child
--                     modules show what the operations on blocks do to it.
--   Parte1/Sound      sequences of calls from tfs_init on, and what holds between two of them.
--   Parte1/Locking    what those calls do to the locks (Calls), the order of the locks (Order), and
--                     threads that make calls at the same time (Threads), which neither wait for
--                     each other for ever (Progress, Termination) nor meet in the use of what a
--                     lock guards, unless both only read it (Exclusion).
--   Parte1/Tests      runs and examples.
--   Parte2/State      the static variables of Parte2/tecnicofs_ex2/fs/state.c and operations.c.
--   Parte2/Tables     the functions of its fs/state.c: i-nodes, blocks, directories, open files.
--   Parte2/Operations tfs_lookup, tfs_open, tfs_close and tfs_destroy_after_all_closed of its
--                     fs/operations.c, the last one cut in two at its wait for condVar.
--   Parte2/Transfer   its tfs_write and tfs_read.
--   Parte2/Counter    the counter openFiles against the open file table.
--   Parte2/Blocking   the calls while single_global_lock is held.
--   Parte2/Shutdown   sequences of calls around a waiting tfs_destroy_after_all_closed, each call as
--                     one step since it runs under the lock. condVar wakes only where it is signalled.
--   Parte2/Server     its fs/tfs_server.c: the table of sessions (Sessions), the handle_tfs_ functions
--                     (Handlers), a round of threadReceiver and one of threadSender (Threads).
--                     Delivery and Mount follow a message to the thread that serves it, and
--                     Buffers says what leaves the sessions' buffers alone.
--   Parte2/Server/System  main up to the threads, the receiver and the twenty senders as one system,
--                     whose steps lie between the points at which another thread may get in.
--   Parte2/Client     its client/tecnicofs_client_api.c: the requests as bytes, and the calls.
--   Parte2/Remote     a call of the client through the server: its message, the server's call of
--                     the file system, and the answer.
--   Parte2/Tests, Parte2/Remote/Tests   examples.
--
-- An operation takes the state and returns the next one with its result; -1 and NULL are values
-- (minus_one, none). A pointer to an i-node or to an entry of a table is its index, a pointer into
-- fs_data is an address. size_t wraps at 2 ^ 64 (add_size, sub_size), an int in fs_data at 2 ^ 32.
-- A for loop over a table is recursion on the rounds that are left. The loops of tfs_write and
-- tfs_read run on fuel, one more than the count of bytes, and a call that is out of fuel has no
-- result (none); each round moves at least one byte. The loop of tfs_copy_to_external_fs runs on fuel
-- as well, a round for each read; a file that fits into its buffer takes two rounds at most.
--
-- In Parte2 the one lock is a flag of the state. A call that finds it set has no result (none), for
-- it waits until the lock is free; the calls of pthread_mutex_lock and pthread_mutex_unlock succeed.
--
-- The operating system is a parameter of the server: what open of a client's pipe gives, whether a
-- write to a descriptor succeeds, and how large an array may be on a thread's stack (Os). What a
-- thread does ends in an Outcome: it is done, with what it has written and closed; it waits for
-- ever for the lock, or for condVar; the process exits; or it touches memory outside an array. The
-- client's pipes are a parameter too (Exchange), from the bytes written to the server's pipe to the
-- memory that the answer is read into, which may have less than the whole answer; that it has all
-- of it is assumed up to PIPE_BUF bytes only, where pipes promise it. The client's array for an
-- answer has a bound on its size as well. Buffers that the source does not initialise are
-- parameters, so that nothing depends on what they hold.
--
-- In Parte2/Server/System a message is handed over, taken out or served in one step each. A signal
-- wakes the thread that waits and is lost where none does; a wait ends by a signal alone. The system
-- keeps two histories of each session, the messages put into its buffer and those taken out of it.
--
-- In Parte1 a call runs alone in the modules on its data. Parte1/Locking leaves the data out
-- instead: a function is the tree of its locks, with the tests of the source as open choices, and
-- it takes what its caller goes on with for each way in which it returns. The loops of
-- allocNecessaryBlocks and tfs_copy_to_external_fs, the two that take locks again and again, have a
-- bound on their rounds as a parameter. Where a function reads or writes what a lock that it has
-- taken guards, the tree is marked with that use. Accesses that the source makes without that lock
-- have no mark: tfs_write and tfs_read read of_inumber, and tfs_read isAppending,
-- open_existing_file reads i_size for an append, find_in_dir the directory, inode_create and
-- inode_delete write an i-node under newFileMutex alone, data_block_free writes free_blocks, and
-- remove_from_open_file_table writes free_open_file_entries under the entry's mutex, where the
-- search of that table holds addFileEntryMutex. The calls of pthread_mutex_lock and of the other
-- functions on locks succeed.
--
-- Not modelled: the data of Parte1 under concurrent calls, what init and destroy do to the locks,
-- insert_delay and touch_all_memory, the creation of the server's pipe and failures of read on it, and
-- spurious wakeups.
pub mod Common
pub mod Config
pub mod Memory
pub mod Table
pub mod Directory
pub mod Exclusive
pub mod Parte1
pub mod Parte2
