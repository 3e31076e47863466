-- ===== src/Parte1/Locking/Calls.antt =====
-- The functions of Parte1/tecnicofs-v2/fs/operations.c and fs/state.c as programs of locks. A function
-- takes what its caller goes on with, for each way in which it returns. `uses` stands where it reads
-- (shared) or writes (exclusive) what a lock that it has taken guards.
use so_file_system.Common.{ℕ, zero, suc, List, [], ◌∷◌}

-- newFileMutex, the rwlock of an i-node, the file_entry_mutex of a handle, allocBlock, and
-- addFileEntryMutex.
pub data Lock : Type 0 where
  new_file : Lock
  inode_lock : ℕ → Lock
  file_entry : ℕ → Lock
  alloc_block : Lock
  add_file_entry : Lock

-- pthread_rwlock_rdlock takes a lock shared, the other calls take it for one thread.
pub data Mode : Type 0 where
  shared : Mode
  exclusive : Mode

pub data Program : Type 0 where
  returns : Program
  locks : Mode → Lock → Program → Program
  unlocks : Lock → Program → Program
  uses : Mode → Lock → Program → Program
  either : Program → Program → Program
  chooses : (ℕ → Program) → Program

unfoldable pub data_block_alloc : Program → Program → Program
data_block_alloc found full = locks exclusive alloc_block (
    either (uses exclusive alloc_block (unlocks alloc_block found))
      (uses shared alloc_block (unlocks alloc_block full)))

-- allocNthDataBlock: it goes on, it has found no block, or it fails. The blocks of the indirect part
-- need a block for their numbers first.
unfoldable pub alloc_nth_data_block : ℕ → Program → Program → Program → Program
alloc_nth_data_block inum done full fails =
    let gets = uses exclusive (inode_lock inum) done in
    let second = data_block_alloc (either gets fails) (either fails full) in
    either fails
      (data_block_alloc (either gets (either (uses exclusive (inode_lock inum) second) fails)) full)

-- allocNecessaryBlocks, with a bound on the rounds of its loop.
unfoldable pub alloc_necessary_blocks : ℕ → ℕ → Program → Program → Program
alloc_necessary_blocks inum zero done fails = done
alloc_necessary_blocks inum (suc rounds) done fails =
    either done
      (alloc_nth_data_block inum (alloc_necessary_blocks inum rounds done fails) done fails)

unfoldable pub get_open_file_entry : ℕ → Program → Program → Program
get_open_file_entry fhandle found null = either null (
    locks exclusive (file_entry fhandle) (
      uses shared (file_entry fhandle)
        (either (unlocks (file_entry fhandle) null) (unlocks (file_entry fhandle) found))))

unfoldable pub remove_from_open_file_table : ℕ → Program → Program
remove_from_open_file_table fhandle after = either after (
    locks exclusive (file_entry fhandle) (
      either (uses shared (file_entry fhandle) (unlocks (file_entry fhandle) after))
        (uses exclusive (file_entry fhandle) (unlocks (file_entry fhandle) after))))

-- The free entry that the loop finds is left open.
unfoldable pub add_to_open_file_table : Program → Program
add_to_open_file_table after = locks exclusive add_file_entry (
    either
      (uses exclusive add_file_entry (
        chooses λ i. unlocks add_file_entry (
          locks exclusive (file_entry i)
            (uses exclusive (file_entry i) (unlocks (file_entry i) after)))))
      (uses shared add_file_entry (unlocks add_file_entry after)))

unfoldable pub open_existing_file : Program → Program → Program
open_existing_file opened fails = chooses λ inum. either fails (
    either opened (
      locks exclusive (inode_lock inum) (
        uses exclusive (inode_lock inum)
          (either (unlocks (inode_lock inum) fails) (unlocks (inode_lock inum) opened)))))

-- The branch of tfs_open in which the file has to be created.
unfoldable pub open_new : Program → Program
open_new after = locks exclusive new_file (
    uses shared new_file (
      either (unlocks new_file (open_existing_file (add_to_open_file_table after) after)) (
        uses exclusive new_file
          (either (unlocks new_file after) (unlocks new_file (add_to_open_file_table after))))))

unfoldable pub tfs_open : Program → Program
tfs_open after = either after (
    either (open_existing_file (add_to_open_file_table after) after)
      (either (open_new after) after))

unfoldable pub tfs_close : ℕ → Program → Program
tfs_close fhandle after = remove_from_open_file_table fhandle after

-- The end of a transfer, also where it fails.
unfoldable pub leave_file : ℕ → ℕ → Program → Program
leave_file fhandle inum after = unlocks (file_entry fhandle) (unlocks (inode_lock inum) after)

unfoldable pub tfs_write : ℕ → ℕ → Program → Program
tfs_write rounds fhandle after =
    get_open_file_entry fhandle
      (chooses λ inum.
        let leave = leave_file fhandle inum after in
        either after (
          locks exclusive (inode_lock inum) (
            locks exclusive (file_entry fhandle) (
              uses exclusive (file_entry fhandle) (
                either leave (
                  alloc_necessary_blocks inum rounds (uses exclusive (inode_lock inum) leave)
                    leave))))))
      after

unfoldable pub tfs_read : ℕ → Program → Program
tfs_read fhandle after =
    get_open_file_entry fhandle
      (chooses λ inum. either after (
        locks shared (inode_lock inum) (
          locks exclusive (file_entry fhandle) (
            uses shared (inode_lock inum)
              (uses exclusive (file_entry fhandle) (leave_file fhandle inum after))))))
      after

-- The loop of tfs_copy_to_external_fs, with a bound on its rounds: after a failed read it returns with
-- the handle open.
unfoldable pub copy_loop : ℕ → ℕ → Program → Program
copy_loop zero fhandle after = after
copy_loop (suc rounds) fhandle after =
    let rest = copy_loop rounds fhandle after in
    tfs_read fhandle (either after (either (tfs_close fhandle after) rest))

unfoldable pub tfs_copy_to_external_fs : ℕ → Program → Program
tfs_copy_to_external_fs rounds after = either after (
    tfs_open (
      either after
        (chooses λ fhandle. either (tfs_close fhandle after) (copy_loop rounds fhandle after))))

-- A call of the file system. tfs_lookup takes no lock.
pub data Call : Type 0 where
  open_call : Call
  close_call : ℕ → Call
  write_call : ℕ → ℕ → Call
  read_call : ℕ → Call
  copy_call : ℕ → Call

abbrev pub call : Call → Program → Program
call open_call after = tfs_open after
call (close_call fhandle) after = tfs_close fhandle after
call (write_call rounds fhandle) after = tfs_write rounds fhandle after
call (read_call fhandle) after = tfs_read fhandle after
call (copy_call rounds) after = tfs_copy_to_external_fs rounds after

-- What a thread does: calls one after another.
unfoldable pub calls : List Call → Program
calls [] = returns
calls (c ∷ cs) = call c (calls cs)
