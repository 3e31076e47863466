-- ===== src/Parte1/Ownership/Places.antt =====
-- Places and bytes of i-nodes while raw memory changes inside one block.
use so_file_system.Common.{
  ℕ, ◌+◌, ◌-◌, ◌*◌, ◌<◌, ◌≤◌, ◌≡◌, refl, ap, ◌∙◌, ◌⊎◌, inr, ◌≢◌, pos, index, arith, dec_lt, lt→ltb,
}
use so_file_system.Config.{block_size, direct_block_count, max_inode_blocks}
use so_file_system.Memory.{Bytes, load_int}
use so_file_system.Memory.Laws.{load_int-congr}
use so_file_system.Parte1.State.{State, Inode}
use so_file_system.Parte1.Blocks.{entry_at}
use so_file_system.Parte1.Ownership.{number_of, Used, InUse, Holds, IsWf}

pub pos-injective : (a b : ℕ) → pos a ≡ pos b → a ≡ b
pos-injective a b h = ap index h

-- Nothing outside block `c` differs.
abbrev pub AgreesOff : Bytes → Bytes → ℕ → Type 0
AgreesOff m m' c = (a : ℕ) → (a < c * block_size) ⊎ (c * block_size + block_size ≤ a) → m' a ≡ m a

pub byte-AgreesOff :
    (m m' : Bytes) (c d q : ℕ)
    → AgreesOff m m' c
    → d ≢ c
    → q < block_size
    → m' (d * block_size + q) ≡ m (d * block_size + q)
byte-AgreesOff m m' c d q h ne lt = h (d * block_size + q) (omega arith)

pub load_int-AgreesOff :
    (m m' : Bytes) (c d j : ℕ)
    → AgreesOff m m' c
    → d ≢ c
    → j < 256
    → load_int m' (entry_at (d * block_size) j) ≡ load_int m (entry_at (d * block_size) j)
load_int-AgreesOff m m' c d j h ne lt =
    load_int-congr m' m (entry_at (d * block_size) j) (h _ (omega arith)) (h _ (omega arith))
      (h _ (omega arith)) (h _ (omega arith))

-- The places of an i-node that uses indirect blocks include the indirection block.
pub indirection-Used :
    (n : Inode) (k : ℕ)
    → n.blocks_alloc ≤ max_inode_blocks
    → Used n k
    → direct_block_count ≤ k
    → Used n max_inode_blocks
indirection-Used n k le u h = inr (refl, omega arith)

number_low : (m m' : Bytes) (n : Inode) (k : ℕ) → k < 10 → number_of m' n k ≡ number_of m n k
number_low m m' n k h = rw (lt→ltb k 10 h) refl

number_high :
    (m m' : Bytes) (n : Inode) (k d : ℕ)
    → 10 ≤ k
    → n.indirect_data_block ≡ pos d
    → ((j : ℕ)
        → j < 256
        → load_int m' (entry_at (d * block_size) j) ≡ load_int m (entry_at (d * block_size) j))
    → number_of m' n k ≡ number_of m n k
number_high m m' n k d le e h = elim (dec_lt k 266) [
  | yes lt ↦ ground (arith, h (k - 10))
  | no ge ↦ ground arith
]

-- The number in a place stands as long as the i-node's indirection block does.
pub number-AgreesOff :
    (s : State) (m' : Bytes) (c i k : ℕ)
    → IsWf s
    → InUse s i
    → Used (s.inode_table i) k
    → AgreesOff s.fs_data m' c
    → ¬ Holds s i max_inode_blocks c
    → number_of m' (s.inode_table i) k ≡ number_of s.fs_data (s.inode_table i) k
number-AgreesOff s m' c i k wf live u agree other = elim (dec_lt k 10) [
  | yes lt ↦ number_low s.fs_data m' (s.inode_table i) k lt
  | no ge ↦
      let v = indirection-Used (s.inode_table i) k (wf.bounded i live) u (omega arith) in
      let (d, e) = wf.filled i max_inode_blocks live v in
      number_high s.fs_data m' (s.inode_table i) k d (omega arith) e (λ j lt.
        load_int-AgreesOff s.fs_data m' c d j agree (λ same. other (live, v, e ∙ ap pos same)) lt)
]
