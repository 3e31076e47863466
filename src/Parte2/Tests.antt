-- ===== src/Parte2/Tests.antt =====
-- Examples on the file system of Parte2: the root directory in block 0 and a file in block 1, which is
-- open twice.
use so_file_system.Common.{
  ℕ, ◌+◌, ◌*◌, ◌≡◌, refl, inl, pos, negsuc, minus_one, arith, List, [], ◌∷◌, some, Bool, false,
  if◌then◌else◌, ltb, ◌==◌, slice, true, update,
}
use so_file_system.Config.{block_size}
use so_file_system.Table.{free, taken}
use so_file_system.Parte2.State.{State, file, directory}
use so_file_system.Parte2.Operations.{
  synchronized, close_counted, tfs_open, tfs_close, destroy_begin,
}
use so_file_system.Parte2.Tables.{remove_from_open_file_table, add_dir_entry, find_in_dir}
use so_file_system.Parte2.Transfer.{ensure_block, tfs_write, tfs_read}
use so_file_system.Parte2.Transfer.Read.{Names, tfs_read_behind}
use so_file_system.Parte2.Transfer.Write.{before_copy}
use so_file_system.Parte2.Transfer.RoundTrip.{tfs_write-tfs_read_block}
use so_file_system.Parte2.Counter.{open_count}
use so_file_system.Parte2.Counter.Closes.{Closed, tfs_close-Closed, destroy_begin-waits}
use so_file_system.Parte2.Shutdown.{Reachable, waiting, past, start, closes, begins, CountedIn}
use so_file_system.Parte2.Shutdown.Reached.{reachable-CountedIn}
use so_file_system.Parte2.Shutdown.Progress.{Closing, waiting-Closing}
use so_file_system.Parte2.Tables.Directories.{SameDirectory, add_dir_entry-same}
use so_file_system.Parte2.Client.{
  op_mount, op_unmount, op_open, op_close, op_write, op_read, op_shutdown, mount_request,
  unmount_request, open_request, close_request, write_request, read_request, shutdown_request,
}
use so_file_system.Parte2.Client.Sizes.{Sized, SizedIf, request-Sized}
use so_file_system.Parte2.Blocking.{AllBlocked, tfs_open-AllBlocked}
use so_file_system.Parte1

-- The file has `size` bytes.
abbrev pub sample : ℕ → State
sample size = record {
  inode_table = λ i. record {
    i_node_type = if i == 0 then directory else file;
    i_size = if i == 0 then 1024 else size;
    i_data_block = pos i;
  };
  freeinode_ts = λ i. if ltb i 2 then taken else free;
  fs_data = λ a. if ltb a 1024 then 255 else 7;
  free_blocks = λ b. if ltb b 2 then taken else free;
  open_file_table = λ h. record { of_inumber = pos 1; of_offset = 1 };
  free_open_file_entries = λ h. if ltb h 2 then taken else free;
  open_files = pos 2;
  locked = false;
}

-- "/f1"
abbrev pub path : List ℕ
path = 47 ∷ 102 ∷ 49 ∷ []

two_open : open_count (sample 3) ≡ 2
two_open = refl

tfs_close-Closed_example : Closed (sample 3) (tfs_close (sample 3) (pos 0))
tfs_close-Closed_example = tfs_close-Closed (sample 3) (pos 0) (inl refl) refl

destroy_begin-waits_example :
    (s1 : State) × (waits : Bool) × (destroy_begin (sample 3) ≡ some (s1, waits))
    × (s1.open_files ≡ negsuc (open_count s1))
    × (open_count s1 ≡ open_count (sample 3))
    × (waits ≡ ltb 0 (open_count (sample 3)))
destroy_begin-waits_example = destroy_begin-waits (sample 3) refl refl

tfs_open-AllBlocked_example :
    (s1 : State) × (tfs_open (record (sample 3) { open_files = negsuc 2 }) (some path) 0
      ≡ some (s1, minus_one))
    × AllBlocked s1
tfs_open-AllBlocked_example =
    tfs_open-AllBlocked (record (sample 3) { open_files = negsuc 2 }) (some path) 0 2 refl refl

sample-Names : (size : ℕ) → Names (sample size) 0 1 1
sample-Names size = record {
  handle = omega arith;
  entry = refl;
  inode = omega arith;
  block = refl;
  within = omega arith;
}

tfs_read_behind_example :
    (s1 : State) × (tfs_read (sample 0) (pos 0) 5
      ≡ some (s1, (pos 5, slice (sample 0).fs_data (1 * block_size + 1) 5)))
tfs_read_behind_example =
    tfs_read_behind (sample 0) 0 1 1 5 (sample-Names 0) refl (omega arith) (omega arith)
      (omega arith) (omega arith)

before_copy-Names : Names (before_copy (sample 3) 1) 0 1 1
unfolding ensure_block
before_copy-Names = record {
  handle = omega arith;
  entry = refl;
  inode = omega arith;
  block = refl;
  within = omega arith;
}

tfs_write-tfs_read_block_example :
    (s1 s2 : State) × (tfs_write (sample 3) (pos 0) (5 ∷ 6 ∷ []) 2 ≡ some (s1, pos 2))
    × (tfs_read s1 (pos 1) 2 ≡ some (s2, (pos 2, 5 ∷ 6 ∷ [])))
tfs_write-tfs_read_block_example =
    tfs_write-tfs_read_block (sample 3) 0 1 1 1 (5 ∷ 6 ∷ []) 2 before_copy-Names refl (omega arith)
      (λ e. cc) refl refl (omega arith) (omega arith) (omega arith) (omega arith)

-- The shutdown begins, and both handles are closed while it waits.
abbrev begun : State
begun = record (sample 3) { open_files = negsuc 2 }

abbrev closed_one : State
closed_one = record begun {
  free_open_file_entries = update begun.free_open_file_entries 0 free;
  open_files = negsuc 1;
}

abbrev closed_both : State
closed_both = record closed_one {
  free_open_file_entries = update closed_one.free_open_file_entries 1 free;
  open_files = negsuc 0;
}

closed_both_reached : Reachable (sample 3) closed_both past
unfolding destroy_begin tfs_close synchronized close_counted remove_from_open_file_table
closed_both_reached =
    closes closed_one closed_both waiting (pos 1) (pos 0) true
      (closes begun closed_one waiting (pos 0) (pos 0) false
        (begins (sample 3) begun true start refl) refl)
      refl

reachable-CountedIn_example : CountedIn past closed_both
reachable-CountedIn_example =
    reachable-CountedIn (sample 3) closed_both past refl closed_both_reached

begun_reached : Reachable (sample 3) begun waiting
unfolding destroy_begin
begun_reached = begins (sample 3) begun true start refl

waiting-Closing_example :
    (s1 : State) × Closing begun 2 s1
    × Reachable (sample 3) s1 past
    × (open_count s1 ≡ 0)
    × (s1.locked ≡ false)
waiting-Closing_example = waiting-Closing (sample 3) begun refl begun_reached refl

-- The directory of `sample` in a file system of the first version.
abbrev first_version : Parte1.State.State
first_version = record {
  inode_table = λ i. record {
    i_node_type = Parte1.State.directory;
    i_size = 1024;
    blocks_alloc = 1;
    i_data_block = λ j. pos 0;
    indirect_data_block = minus_one;
  };
  freeinode_ts = λ i. taken;
  fs_data = (sample 3).fs_data;
  free_blocks = λ b. taken;
  open_file_table = λ h. record { of_inumber = pos 1; of_offset = 0; is_appending = false };
  free_open_file_entries = λ h. free;
}

same_root : SameDirectory (sample 3) first_version (pos 0)
same_root = record { same_bytes = refl; same_type = refl; same_block = refl }

add_dir_entry-same_example :
    let out = add_dir_entry (sample 3) (pos 0) (pos 1) path in
    let other = Parte1.Inodes.add_dir_entry first_version (pos 0) (pos 1) path in
    (Parte1.Inodes.find_in_dir first_version (pos 0) path ≡ find_in_dir (sample 3) (pos 0) path)
    × (other.1 ≡ out.1)
    × (other.0.fs_data ≡ out.0.fs_data)
add_dir_entry-same_example =
    add_dir_entry-same (sample 3) first_version (pos 0) (pos 1) path same_root

request-Sized_example :
    SizedIf op_mount 0 (mount_request (λ q. 0) path)
    × Sized op_unmount 0 (unmount_request (λ q. 0) (pos 3))
    × SizedIf op_open 0 (open_request (λ q. 0) (pos 3) path (pos 1))
    × Sized op_close 0 (close_request (λ q. 0) (pos 3) (pos 2))
    × SizedIf op_write 0 (write_request (λ q. 0) (pos 3) (pos 2) (5 ∷ 6 ∷ []) 2)
    × Sized op_read 0 (read_request (λ q. 0) (pos 3) (pos 2) 2)
    × Sized op_shutdown 0 (shutdown_request (λ q. 0) (pos 3))
request-Sized_example = request-Sized (λ q. 0) (pos 3) (pos 1) (pos 2) path (5 ∷ 6 ∷ []) 2 0
