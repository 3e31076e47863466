-- ===== src/Parte1/Operations/NewFile.antt =====
-- `tfs_open` with TFS_O_CREAT for a name that is not in the directory: the new file, its handle
-- and its name together.
use so_file_system.Common.{
  ℕ, ◌*◌, ◌<◌, ◌≤◌, ◌≡◌, refl, ◌∙◌, ℤ, pos, minus_one, List, ◌∷◌, true, false, arith, length, some,
  none, has_flag,
}
use so_file_system.Config.{
  block_size, inode_table_size, max_open_files, max_file_name, max_dir_entries, root_dir_inum,
  tfs_o_creat,
}
use so_file_system.Table.{free, first_free}
use so_file_system.Table.Laws.{first_free-Found}
use so_file_system.Directory.{first_empty}
use so_file_system.Directory.Names.{IsText}
use so_file_system.Parte1.State.{State, file}
use so_file_system.Parte1.OpenFiles.{get_open_file_entry}
use so_file_system.Parte1.Inodes.{find_in_dir, test1}
use so_file_system.Parte1.Inodes.Lookup.{HasRoot}
use so_file_system.Parte1.Ownership.{InUse, IsWf}
use so_file_system.Parte1.Operations.Create.{
  with_handle, created, open_created, open_no_handle, lookup-short, lookup-long, created-IsWf,
}
use so_file_system.Parte1.Operations.{tfs_lookup, tfs_open, slash}

handle-IsWf : (s : State) (h i : ℕ) → IsWf s → IsWf (with_handle s h i)
handle-IsWf s h i wf = record { exclusive = wf.exclusive; bounded = wf.bounded; filled = wf.filled }

-- Opening a handle changes no name.
same_lookup :
    (s : State) (h i : ℕ) (name : List ℕ) → tfs_lookup (with_handle s h i) name ≡ tfs_lookup s name
unfolding tfs_lookup find_in_dir
same_lookup s h i name = refl

same_count : (s : State) (h i : ℕ) (name : List ℕ) → test1 (with_handle s h i) name ≡ test1 s name
unfolding test1
same_count s h i name = refl

-- The call that creates a file has returned the handle `h` on it: the file is empty, the handle
-- stands at its start, the name leads to it, and no name has a second entry.
pub record Created (s : State) (path : List ℕ) (rest : List ℕ) (i h : ℕ) (out : State × ℤ)
    : Type 0 where
  pub after : State
  pub returns : out ≡ (after, pos h)
  pub wf : IsWf after
  pub live : InUse after i
  pub was_free : s.freeinode_ts i ≡ free
  pub size : (after.inode_table i).i_size ≡ 0
  pub opened : get_open_file_entry after (pos h) ≡ some h
  pub was_closed : get_open_file_entry s (pos h) ≡ none
  pub entry :
      after.open_file_table h ≡ record { of_inumber = pos i; of_offset = 0; is_appending = false }
  pub found : tfs_lookup after path ≡ pos i
  pub single : test1 after rest ≡ pos 1

-- The handle that is found free was closed, and opens.
closed_handle :
    (s : State) (h : ℕ)
    → s.free_open_file_entries h ≡ free
    → h < max_open_files
    → get_open_file_entry s (pos h) ≡ none
unfolding get_open_file_entry
closed_handle s h f lt = ground arith

opened_handle :
    (s : State) (h i : ℕ)
    → h < max_open_files
    → get_open_file_entry (with_handle s h i) (pos h) ≡ some h
unfolding get_open_file_entry
opened_handle s h i lt = ground arith

-- Let a well-formed file system have a root directory in use, and let a path of '/' and 1 to 39
-- characters lead to no file. If an i-node, a directory entry and a handle are free, tfs_open
-- with TFS_O_CREAT returns the lowest free handle, which was closed; it is now open at the start
-- of a file of size 0 whose i-node was free; the path leads to this file, one entry has its name,
-- and the file system is well-formed.
pub tfs_open-Created :
    (s : State) (b i j h : ℕ) (rest : List ℕ) (flags : ℕ)
    → IsWf s
    → HasRoot s b
    → InUse s root_dir_inum
    → 0 < length rest
    → length rest < max_file_name
    → IsText rest
    → has_flag flags tfs_o_creat ≡ true
    → tfs_lookup s (slash ∷ rest) ≡ minus_one
    → first_free inode_table_size 0 s.freeinode_ts ≡ some i
    → first_empty max_dir_entries 0 s.fs_data (b * block_size) ≡ some j
    → first_free max_open_files 0 s.free_open_file_entries ≡ some h
    → Created s (slash ∷ rest) rest i h (tfs_open s (some (slash ∷ rest)) flags)
unfolding tfs_lookup
tfs_open-Created s b i j h rest flags wf root live some_name short text creat new fi fe fh =
    let inode = first_free-Found inode_table_size s.freeinode_ts i fi in
    let handle = first_free-Found max_open_files s.free_open_file_entries h fh in
    let made = created s b i j rest flags wf root live some_name text creat new fi fe in
    let names = lookup-short s b i j rest flags wf root live some_name text creat new fi fe short in
    record {
      after = with_handle made h i;
      returns = open_created s b i j rest flags wf root live some_name text creat new fi fe h fh;
      wf =
          handle-IsWf made h i
            (created-IsWf s b i j rest flags wf root live some_name text creat new fi fe);
      live = (inode.within, ground arith);
      was_free = inode.was_free;
      size = ground arith;
      opened = opened_handle made h i handle.within;
      was_closed = closed_handle s h handle.was_free handle.within;
      entry = ground arith;
      found = same_lookup made h i (slash ∷ rest) ∙ names.0;
      single = same_count made h i rest ∙ names.1;
    }

-- Let a well-formed file system have a root directory in use, and let a path of '/' and 40
-- characters or more lead to no file. If an i-node, a directory entry and a handle are free,
-- tfs_open with TFS_O_CREAT returns that handle, and after it the path still leads to no file.
pub tfs_open-forgets :
    (s : State) (b i j h : ℕ) (rest : List ℕ) (flags : ℕ)
    → IsWf s
    → HasRoot s b
    → InUse s root_dir_inum
    → max_file_name ≤ length rest
    → IsText rest
    → has_flag flags tfs_o_creat ≡ true
    → tfs_lookup s (slash ∷ rest) ≡ minus_one
    → first_free inode_table_size 0 s.freeinode_ts ≡ some i
    → first_empty max_dir_entries 0 s.fs_data (b * block_size) ≡ some j
    → first_free max_open_files 0 s.free_open_file_entries ≡ some h
    → (s1 : State) × (tfs_open s (some (slash ∷ rest)) flags ≡ (s1, pos h))
      × (tfs_lookup s1 (slash ∷ rest) ≡ minus_one)
tfs_open-forgets s b i j h rest flags wf root live long text creat new fi fe fh =
    let some_name : 0 < length rest = omega arith in
    let made = created s b i j rest flags wf root live some_name text creat new fi fe in
    (
      with_handle made h i,
      open_created s b i j rest flags wf root live some_name text creat new fi fe h fh,
      same_lookup made h i (slash ∷ rest)
          ∙ lookup-long s b i j rest flags wf root live some_name text creat new fi fe long,
    )

-- The call has created the file but found no handle: it fails, and the file stays, empty and with
-- the one entry of its name.
pub record Unopened (s : State) (path : List ℕ) (rest : List ℕ) (i : ℕ) (out : State × ℤ)
    : Type 0 where
  pub after : State
  pub returns : out ≡ (after, minus_one)
  pub wf : IsWf after
  pub live : InUse after i
  pub was_free : s.freeinode_ts i ≡ free
  pub kind : (after.inode_table i).i_node_type ≡ file
  pub size : (after.inode_table i).i_size ≡ 0
  pub blocks : (after.inode_table i).blocks_alloc ≡ 0
  pub found : tfs_lookup after path ≡ pos i
  pub single : test1 after rest ≡ pos 1
  pub same_files : after.open_file_table ≡ s.open_file_table
  pub same_handles : after.free_open_file_entries ≡ s.free_open_file_entries

-- Let a well-formed file system have a root directory in use, and let a path of '/' and 1 to 39
-- characters lead to no file. If an i-node and a directory entry are free but no handle is,
-- tfs_open with TFS_O_CREAT returns -1 with every handle's entry as before, and yet the file is
-- there: the path now leads to an i-node that was free and is now in use, an empty file without
-- blocks, one entry has its name, and the file system is well-formed.
pub tfs_open-Unopened :
    (s : State) (b i j : ℕ) (rest : List ℕ) (flags : ℕ)
    → IsWf s
    → HasRoot s b
    → InUse s root_dir_inum
    → 0 < length rest
    → length rest < max_file_name
    → IsText rest
    → has_flag flags tfs_o_creat ≡ true
    → tfs_lookup s (slash ∷ rest) ≡ minus_one
    → first_free inode_table_size 0 s.freeinode_ts ≡ some i
    → first_empty max_dir_entries 0 s.fs_data (b * block_size) ≡ some j
    → first_free max_open_files 0 s.free_open_file_entries ≡ none
    → Unopened s (slash ∷ rest) rest i (tfs_open s (some (slash ∷ rest)) flags)
tfs_open-Unopened s b i j rest flags wf root live some_name short text creat new fi fe fh =
    let inode = first_free-Found inode_table_size s.freeinode_ts i fi in
    let names = lookup-short s b i j rest flags wf root live some_name text creat new fi fe short in
    record {
      after = created s b i j rest flags wf root live some_name text creat new fi fe;
      returns = open_no_handle s b i j rest flags wf root live some_name text creat new fi fe fh;
      wf = created-IsWf s b i j rest flags wf root live some_name text creat new fi fe;
      live = (inode.within, ground arith);
      was_free = inode.was_free;
      kind = ground arith;
      size = ground arith;
      blocks = ground arith;
      found = names.0;
      single = names.1;
      same_files = refl;
      same_handles = refl;
    }
