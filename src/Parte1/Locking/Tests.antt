-- ===== src/Parte1/Locking/Tests.antt =====
-- Two threads that read the same file through handles 4 and 5 at the same time.
use so_file_system.Common.{ℕ, ◌≡◌, refl, ap, arith, List, [], ◌∷◌, if◌then◌else◌, ◌==◌}
use so_file_system.Parte1.Locking.Calls.{
  inode_lock, file_entry, shared, exclusive, returns, uses, Call, read_call, calls, tfs_read,
  get_open_file_entry, leave_file,
}
use so_file_system.Parte1.Locking.Threads.{
  same_lock, both_shared, conflicts, drop_lock, Thread, is_available, takes, frees, touches,
  goes_right, picks, Reach, start, later,
}
use so_file_system.Parte1.Locking.Exclusion.{accesses_apart}
use so_file_system.Parte1.Locking.Termination.{Terminates, Run, AllReturned, calls_complete}

abbrev readers : ℕ → List Call
readers i = if i == 0 then read_call 4 ∷ [] else read_call 5 ∷ []

-- A thread that reads i-node 1, through its handle.
abbrev inside : ℕ → Thread
inside fhandle = record {
  program =
      uses shared (inode_lock 1)
        (uses exclusive (file_entry fhandle) (leave_file fhandle 1 returns));
  held = (file_entry fhandle, exclusive) ∷ (inode_lock 1, shared) ∷ [];
}

abbrev Reading : Type 0
Reading = (s : ℕ → Thread) × Reach 2 readers s × (s 0 ≡ inside 4) × (s 1 ≡ inside 5)

reading : Reading
unfolding calls tfs_read get_open_file_entry is_available conflicts same_lock both_shared drop_lock
reading = (
  _,
  later
      (later
        (later
          (later
            (later
              (later
                (later
                  (later
                    (later
                      (later
                        (later
                          (later
                            (later
                              (later
                                (later
                                  (later
                                    (later (later start (goes_right 0 (omega arith) refl))
                                      (takes 0 (omega arith) refl refl))
                                    (touches 0 (omega arith) refl))
                                  (goes_right 0 (omega arith) refl))
                                (frees 0 (omega arith) refl))
                              (picks 0 1 (omega arith) refl))
                            (goes_right 0 (omega arith) refl))
                          (takes 0 (omega arith) refl refl))
                        (takes 0 (omega arith) refl refl))
                      (goes_right 1 (omega arith) refl))
                    (takes 1 (omega arith) refl refl))
                  (touches 1 (omega arith) refl))
                (goes_right 1 (omega arith) refl))
              (frees 1 (omega arith) refl))
            (picks 1 1 (omega arith) refl))
          (goes_right 1 (omega arith) refl))
        (takes 1 (omega arith) refl refl))
      (takes 1 (omega arith) refl refl),
  refl,
  refl,
)

calls_complete_example :
    Terminates 2 reading.0 × ((t : ℕ → Thread) × Run 2 reading.0 t × AllReturned 2 t)
calls_complete_example = calls_complete reading.1

accesses_apart_example : (shared ≡ shared) × (shared ≡ shared)
accesses_apart_example =
    accesses_apart reading.1 0 1 shared shared (inode_lock 1)
      (uses exclusive (file_entry 4) (leave_file 4 1 returns))
      (uses exclusive (file_entry 5) (leave_file 5 1 returns)) (omega arith) (omega arith)
      (λ q. absurd (omega arith)) (ap (λ t. t.program) reading.2) (ap (λ t. t.program) reading.3)
