-- ===== src/Table.antt =====
-- Allocation tables: `allocation_state_t` of fs/state.h, and the loop that looks for the first free
-- entry, which inode_create, data_block_alloc and add_to_open_file_table of fs/state.c share.
pub mod Laws
use so_file_system.Common.{ℕ, zero, suc, Option, none, some, Bool, true, false, ltb, if◌then◌else◌}

pub data Allocation : Type 0 where
  free taken : Allocation

abbrev pub Table : Type 0
Table = ℕ → Allocation

-- `x == FREE`
abbrev pub is_free : Allocation → Bool
is_free free = true
is_free taken = false

-- `for (i = …; rounds are left; i++) if (t[i] == FREE) return i;`
unfoldable pub first_free : ℕ → ℕ → Table → Option ℕ
first_free zero i t = none
first_free (suc k) i t = elim (is_free (t i)) [ true ↦ some i | false ↦ first_free k (suc i) t ]

-- `for (i = 0; i < limit; i++) t[i] = FREE;`
unfoldable pub free_all : ℕ → Table → Table
free_all limit t i = if ltb i limit then free else t i
