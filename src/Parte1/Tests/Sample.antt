-- ===== src/Parte1/Tests/Sample.antt =====
-- A small file system in the form of Parte1/tecnicofs-v2: the root directory in block 0 and the file
-- "f1" of three bytes in block 1, which is open twice.
use so_file_system.Common.{
  ℕ, ◌<◌, ◌≡◌, refl, sym, ap, ◌∙◌, pos, arith, List, [], ◌∷◌, false, if◌then◌else◌, ltb, ◌==◌,
  lt→ltb,
}
use so_file_system.Table.{free, taken}
use so_file_system.Parte1.State.{State, file, directory}
use so_file_system.Parte1.Ownership.{number_of, Used, InUse, Holds, IsWf}
use so_file_system.Parte1.Ownership.Places.{pos-injective}
use so_file_system.Parte1.Inodes.Lookup.{HasRoot}

-- "f1", "/f1" and "/g"
abbrev pub f1 : List ℕ
f1 = 102 ∷ 49 ∷ []

abbrev pub sample : State
sample = record {
  inode_table = λ i. record {
    i_node_type = if i == 0 then directory else file;
    i_size = if i == 0 then 1024 else 3;
    i_data_block = λ k. pos i;
    indirect_data_block = pos 0;
    blocks_alloc = if ltb i 2 then 1 else 0;
  };
  freeinode_ts = λ i. if ltb i 2 then taken else free;
  fs_data = λ a.
      if a == 0
      then 102
      else if a == 1
      then 49
      else if a == 40
      then 1
      else if ltb a 44
      then 0
      else if ltb a 1024
      then 255
      else 7;
  free_blocks = λ b. if ltb b 2 then taken else free;
  open_file_table = λ h. record { of_inumber = pos 1; of_offset = 1; is_appending = false };
  free_open_file_entries = λ h. if ltb h 2 then taken else free;
}

one_block : (i k : ℕ) → InUse sample i → Used (sample.inode_table i) k → (i < 2) × (k ≡ 0)
one_block i k live u = ground (arith, live, u)

sample-Holds : (i k b : ℕ) → Holds sample i k b → (i < 2) × (k ≡ 0) × (b ≡ i)
sample-Holds i k b (live, u, e) =
    let (low, first) = one_block i k live u in
    let at : pos i ≡ pos b = sym (ap (number_of sample.fs_data (sample.inode_table i)) first) ∙ e in
    (low, first, sym (pos-injective i b at))

pub sample-IsWf : IsWf sample
sample-IsWf = record {
  exclusive = record {
    allocated = λ i k b h.
        let x = sample-Holds i k b h in
        (
          omega (arith, x),
          ap (λ c. if ltb c 2 then taken else free) x.2
              ∙ ap (λ t. if t then taken else free) (lt→ltb i 2 x.0),
        );
    unique = λ i k j l b h h'.
        let x = sample-Holds i k b h in
        let y = sample-Holds j l b h' in (sym x.2 ∙ y.2, x.1 ∙ sym y.1);
  };
  bounded = λ i live. ground (arith, live);
  filled = λ i k live u.
      (i, ap (number_of sample.fs_data (sample.inode_table i)) (one_block i k live u).1);
}

pub sample_root : HasRoot sample 0
sample_root = record { kind = refl; block = refl; within = omega arith; some_block = omega arith }
