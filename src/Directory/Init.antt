-- ===== src/Directory/Init.antt =====
-- A directory block that `init_entries` has initialised.
use so_file_system.Common.{
  ℕ, zero, suc, ◌+◌, ◌<◌, ◌≤◌, ◌≡◌, refl, sym, ap, ◌∙◌, minus_one, arith, List, ℕ_discrete,
  is_minus_one, not, ◌&&◌,
}
use so_file_system.Config.{max_file_name, max_dir_entries}
use so_file_system.Memory.{strncmp_eq, Bytes, load_int, store_int}
use so_file_system.Memory.Laws.{load_int-store_int, load_int-store_int_ne}
use so_file_system.Directory.{name_at, inumber_at, init_entries, find_entry}
use so_file_system.Directory.Search.{Absent-find_entry}

init_before :
    (k i l : ℕ) (m : Bytes) (p : ℕ)
    → l < i
    → load_int (init_entries k i m p) (inumber_at p l) ≡ load_int m (inumber_at p l)
unfolding init_entries
init_before zero i l m p lt = refl
init_before (suc k) i l m p lt =
    init_before k (suc i) l (store_int m (inumber_at p i) minus_one) p (omega arith)
    ∙ load_int-store_int_ne m (inumber_at p i) (inumber_at p l) minus_one (omega arith)

pub load_int-init_entries :
    (k i l : ℕ) (m : Bytes) (p : ℕ)
    → i ≤ l
    → l < i + k
    → load_int (init_entries k i m p) (inumber_at p l) ≡ minus_one
unfolding init_entries
load_int-init_entries zero i l m p le lt = absurd (omega arith)
load_int-init_entries (suc k) i l m p le lt = elim (ℕ_discrete i l) [
  | yes e ↦
      init_before k (suc i) l (store_int m (inumber_at p i) minus_one) p (omega (arith, e))
      ∙ (ap (λ j. load_int (store_int m (inumber_at p i) minus_one) (inumber_at p j)) (sym e)
          ∙ load_int-store_int m (inumber_at p i) minus_one (omega arith))
  | no ne ↦
      load_int-init_entries k (suc i) l (store_int m (inumber_at p i) minus_one) p
        (omega (arith, ne)) (omega arith)
]

-- No entry of an initialised block has a name.
pub init-Absent :
    (m : Bytes) (p : ℕ) (name : List ℕ)
    → find_entry max_dir_entries 0 (init_entries max_dir_entries 0 m p) p name ≡ minus_one
init-Absent m p name =
    (Absent-find_entry max_dir_entries 0 (init_entries max_dir_entries 0 m p) p name (λ l ge lt.
      ap
        (λ z.
          not (is_minus_one z)
          && strncmp_eq max_file_name (init_entries max_dir_entries 0 m p) (name_at p l) name)
        (load_int-init_entries max_dir_entries 0 l m p ge lt))).0
