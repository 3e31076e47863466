-- ===== src/Parte1/Tests/Reached.antt =====
-- A file that is created and written.
use so_file_system.Common.{ℕ, ◌≡◌, refl, ℤ, pos, List, [], ◌∷◌, some, arith}
use so_file_system.Parte1.State.{State}
use so_file_system.Parte1.Operations.{slash, tfs_init, tfs_open}
use so_file_system.Parte1.Transfer.{tfs_write, tfs_read}
use so_file_system.Parte1.Tests.Sample.{sample}
use so_file_system.Parte1.Sound.Defs.{Sound}
use so_file_system.Parte1.Sound.Reached.{
  Reached, initialised, opens, reached-Sound, reached_returns,
}

abbrev opened : State
opened = (tfs_open (tfs_init sample).0 (some (slash ∷ 102 ∷ [])) 1).0

created : Reached sample opened
created = opens (some (slash ∷ 102 ∷ [])) 1 (initialised refl) refl refl

abbrev bytes : List ℕ
bytes = 1 ∷ 2 ∷ 3 ∷ []

reached_returns_example :
    ((s1 : State) × (r : ℤ) × (tfs_write opened (pos 0) bytes 3 ≡ some (s1, r)) × Reached sample s1)
    × ((s1 : State) × (r : ℤ) × (out : List ℕ) × (tfs_read opened (pos 0) 10 ≡ some (s1, r, out))
        × Reached sample s1)
reached_returns_example = reached_returns created (pos 0) bytes 3 10 (omega arith)

reached-Sound_example : Sound opened 0
reached-Sound_example = reached-Sound created
