-- ===== src/Parte1/Ownership/Keeps.antt =====
-- What an operation on one file must leave alone: the tables of files and handles, the sizes, and
-- every byte of every file within the blocks that it had.
use so_file_system.Common.{
  ℕ, ◌+◌, ◌*◌, ◌/◌, ◌%◌, ◌<◌, ◌≤◌, ◌≡◌, refl, sym, ap, ◌∙◌, inl, ◌≢◌, pos, index, arith,
}
use so_file_system.Config.{block_size, max_inode_blocks}
use so_file_system.Parte1.State.{State}
use so_file_system.Parte1.Ownership.{number_of, Used, InUse, Holds, IsWf, byte_at}
use so_file_system.Parte1.Ownership.Places.{AgreesOff, byte-AgreesOff}

pub record Keeps (s s' : State) : Type 0 where
  pub same_use : s'.freeinode_ts ≡ s.freeinode_ts
  pub same_files : s'.open_file_table ≡ s.open_file_table
  pub same_handles : s'.free_open_file_entries ≡ s.free_open_file_entries
  pub same_size : (i : ℕ) → (s'.inode_table i).i_size ≡ (s.inode_table i).i_size
  pub same_kind : (i : ℕ) → (s'.inode_table i).i_node_type ≡ (s.inode_table i).i_node_type
  pub longer : (i : ℕ) → (s.inode_table i).blocks_alloc ≤ (s'.inode_table i).blocks_alloc
  pub same_bytes :
      (i q : ℕ)
      → InUse s i
      → q < (s.inode_table i).blocks_alloc * block_size
      → byte_at s' i q ≡ byte_at s i q

pub Keeps-refl : (s : State) → Keeps s s
Keeps-refl s = record {
  same_use = refl;
  same_files = refl;
  same_handles = refl;
  same_size = λ i. refl;
  same_kind = λ i. refl;
  longer = λ i. omega arith;
  same_bytes = λ i q live h. refl;
}

pub live_after : (s s' : State) → Keeps s s' → (i : ℕ) → InUse s i → InUse s' i
live_after s s' e i live = (live.0, ap (λ f. f i) e.same_use ∙ live.1)

pub Keeps-trans : (s t u : State) → Keeps s t → Keeps t u → Keeps s u
Keeps-trans s t u e f = record {
  same_use = f.same_use ∙ e.same_use;
  same_files = f.same_files ∙ e.same_files;
  same_handles = f.same_handles ∙ e.same_handles;
  same_size = λ i. f.same_size i ∙ e.same_size i;
  same_kind = λ i. f.same_kind i ∙ e.same_kind i;
  longer = λ i. omega (arith, e.longer i, f.longer i);
  same_bytes = λ i q live h.
      f.same_bytes i q (live_after s t e i live) (grind (arith, e.longer i))
      ∙ e.same_bytes i q live h;
}

-- A block that holds no data of a file, so that writing to it changes none.
abbrev pub NotData : State → ℕ → Type 0
NotData s c = (i k : ℕ) → k < max_inode_blocks → ¬ Holds s i k c

-- Where the numbers stand and memory changes in no data block, the bytes of the files stand.
pub bytes_stand :
    (s s' : State) (c i q : ℕ)
    → IsWf s
    → InUse s i
    → q < (s.inode_table i).blocks_alloc * block_size
    → ((k : ℕ)
        → Used (s.inode_table i) k
        → number_of s'.fs_data (s'.inode_table i) k ≡ number_of s.fs_data (s.inode_table i) k)
    → AgreesOff s.fs_data s'.fs_data c
    → NotData s c
    → byte_at s' i q ≡ byte_at s i q
bytes_stand s s' c i q wf live h kept agree none =
    let lt : q / 1024 < (s.inode_table i).blocks_alloc = omega arith in
    let (b, e) = wf.filled i (q / 1024) live (inl lt) in
    let ne : b ≢ c = λ same.
      none i (q / 1024) (omega (arith, wf.bounded i live)) (live, inl lt, e ∙ ap pos same) in
    ap (λ z. s'.fs_data (index z * block_size + q % block_size)) (kept (q / 1024) (inl lt) ∙ e)
    ∙ byte-AgreesOff s.fs_data s'.fs_data c b (q % 1024) agree ne (omega arith)
    ∙ sym (ap (λ z. s.fs_data (index z * block_size + q % block_size)) e)
