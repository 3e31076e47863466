-- ===== src/Parte1/Operations/Init.antt =====
-- `tfs_init` of Parte1/tecnicofs-v2/fs/operations.c.
use so_file_system.Common.{
  ℕ, ◌≡◌, refl, sym, ap, ◌∙◌, ℤ, pos, negsuc, minus_one, arith, List, none, some, update,
  update-update,
}
use so_file_system.Config.{
  block_size, data_blocks, inode_table_size, max_open_files, max_dir_entries, root_dir_inum,
}
use so_file_system.Table.{taken, first_free, free_all}
use so_file_system.Directory.{init_entries}
use so_file_system.Directory.Init.{init-Absent}
use so_file_system.Parte1.State.{State, directory, put_inode}
use so_file_system.Parte1.Blocks.{data_block_alloc, data_block_get}
use so_file_system.Parte1.OpenFiles.{get_open_file_entry}
use so_file_system.Parte1.Inodes.{state_init, inode_create, create_directory}
use so_file_system.Parte1.Inodes.Lookup.{HasRoot, find_in_dir_eq}
use so_file_system.Parte1.Ownership.{number_of, Used, InUse, Holds, IsWf}
use so_file_system.Parte1.Ownership.Places.{pos-injective}
use so_file_system.Parte1.Operations.{tfs_init, tfs_lookup, skip}

-- What `tfs_init` leaves.
abbrev pub fresh : State → State
fresh s =
    put_inode
      (record s {
        freeinode_ts = update (free_all inode_table_size s.freeinode_ts) 0 taken;
        free_blocks = update (free_all data_blocks s.free_blocks) 0 taken;
        free_open_file_entries = free_all max_open_files s.free_open_file_entries;
        fs_data = init_entries max_dir_entries 0 s.fs_data 0;
      })
      0
      (record (s.inode_table 0) {
        i_node_type = directory;
        i_size = block_size;
        i_data_block = update (s.inode_table 0).i_data_block 0 (pos 0);
        blocks_alloc = 1;
      })

-- The file system is ready: it is well-formed, it has an empty root directory and nothing else, and no
-- handle is open.
pub record Initialised (s : State) (out : State × ℤ) : Type 0 where
  pub after : State
  pub returns : out ≡ (after, pos 0)
  pub wf : IsWf after
  pub root : HasRoot after 0
  pub live : InUse after root_dir_inum
  pub only : (i : ℕ) → InUse after i → i ≡ root_dir_inum
  pub absent : (name : List ℕ) → tfs_lookup after name ≡ minus_one
  pub closed : (fhandle : ℤ) → get_open_file_entry after fhandle ≡ none

inode_zero :
    (s : State) → first_free inode_table_size 0 (free_all inode_table_size s.freeinode_ts) ≡ some 0
unfolding first_free free_all
inode_zero s = refl

block_zero : (s : State) → first_free data_blocks 0 (free_all data_blocks s.free_blocks) ≡ some 0
unfolding first_free free_all
block_zero s = refl

root_created : (s : State) → inode_create (state_init s) directory ≡ (fresh s, pos 0)
unfolding state_init inode_create create_directory data_block_alloc data_block_get first_free
    free_all
root_created s =
    ap (λ t. (record (fresh s) { inode_table = t }, pos 0))
      (update-update s.inode_table 0 (record (s.inode_table 0) { i_node_type = directory })
        ((fresh s).inode_table 0))

pub tfs_init_eq : (s : State) → tfs_init s ≡ (fresh s, pos 0)
unfolding tfs_init
tfs_init_eq s = rw (tfs_init, root_created s) (ap (λ o. (o.0, pos 0)) (root_created s))

only_root : (s : State) (i : ℕ) → InUse (fresh s) i → i ≡ 0
unfolding free_all
only_root s i live = ground arith

fresh-Used : (s : State) (i k : ℕ) → InUse (fresh s) i → Used ((fresh s).inode_table i) k → k ≡ 0
fresh-Used s i k live u = ground (arith, only_root s i live)

fresh-number :
    (s : State) (i k : ℕ)
    → i ≡ 0
    → k ≡ 0
    → number_of (fresh s).fs_data ((fresh s).inode_table i) k ≡ pos 0
fresh-number s i k e f =
    ap (λ i. number_of (fresh s).fs_data ((fresh s).inode_table i) k) e
    ∙ ap (number_of (fresh s).fs_data ((fresh s).inode_table 0)) f

fresh-Holds : (s : State) (i k b : ℕ) → Holds (fresh s) i k b → (i ≡ 0) × (k ≡ 0) × (b ≡ 0)
fresh-Holds s i k b (live, u, e) =
    let first = only_root s i live in
    let place = fresh-Used s i k live u in
    (first, place, pos-injective b 0 (sym e ∙ fresh-number s i k first place))

pub fresh-IsWf : (s : State) → IsWf (fresh s)
fresh-IsWf s = record {
  exclusive = record {
    allocated = λ i k b h.
        let x = fresh-Holds s i k b h in (omega (arith, x.2), ap (fresh s).free_blocks x.2);
    unique = λ i k j l b h h'.
        let x = fresh-Holds s i k b h in
        let y = fresh-Holds s j l b h' in (x.0 ∙ sym y.0, x.1 ∙ sym y.1);
  };
  bounded = λ i live. ground (arith, only_root s i live);
  filled = λ i k live u. (0, fresh-number s i k (only_root s i live) (fresh-Used s i k live u));
}

pub fresh_root : (s : State) → HasRoot (fresh s) 0
fresh_root s = record { kind = refl; block = refl; within = omega arith; some_block = omega arith }

no_handle_open : (s : State) (fhandle : ℤ) → get_open_file_entry (fresh s) fhandle ≡ none
unfolding get_open_file_entry free_all
no_handle_open s (pos h) = ground arith
no_handle_open s (negsuc h) = refl

-- From any state of its static storage tfs_init of Parte1 returns 0 and leaves a well-formed file
-- system with a root directory in block 0, in use, and no other i-node in use; no name is found
-- in it, and no handle is open.
pub tfs_init-Initialised : (s : State) → Initialised s (tfs_init s)
unfolding tfs_lookup
tfs_init-Initialised s = record {
  after = fresh s;
  returns = tfs_init_eq s;
  wf = fresh-IsWf s;
  root = fresh_root s;
  live = (omega arith, refl);
  only = only_root s;
  absent = λ name.
      find_in_dir_eq (fresh s) 0 (skip name) (fresh_root s) ∙ init-Absent s.fs_data 0 (skip name);
  closed = no_handle_open s;
}
