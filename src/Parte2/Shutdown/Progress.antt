-- ===== src/Parte2/Shutdown/Progress.antt =====
-- The shutdown of Parte2/tecnicofs_ex2/fs/operations.c comes to its end once the open handles are
-- closed.
use so_file_system.Common.{
  ℕ, zero, suc, ◌<◌, ◌≡◌, refl, sym, ap, ◌∙◌, inl, inr, ℤ, pos, negsuc, suc_nonzero, subst, some,
  Bool, Bool-cases, true, false, arith, update, ltb, lt→ltb, ◌==◌,
}
use so_file_system.Config.{max_open_files}
use so_file_system.Table.{Table, free, taken, is_free}
use so_file_system.Table.Laws.{is_free-taken}
use so_file_system.Parte2.State.{State}
use so_file_system.Parte2.Tables.{remove_from_open_file_table}
use so_file_system.Parte2.Operations.{tfs_close, close_counted, synchronized}
use so_file_system.Parte2.Counter.{count_taken, count-release, open_count}
use so_file_system.Parte2.Shutdown.{waiting, past, Reachable, closes}
use so_file_system.Parte2.Shutdown.Reached.{reachable-CountedIn}

-- So many calls of tfs_close, all successful, of which the last one alone signals condVar.
pub data Closing : State → ℕ → State → Type 0 where
  last :
      (s s1 : State) (fhandle : ℤ) → tfs_close s fhandle ≡ some (s1, (pos 0, true)) → Closing s 1 s1
  next :
      (s s1 s2 : State) (fhandle : ℤ) (n : ℕ)
      → tfs_close s fhandle ≡ some (s1, (pos 0, false))
      → Closing s1 n s2
      → Closing s (suc n) s2

some_taken : (n : ℕ) (t : Table) → 0 < count_taken n t → (i : ℕ) × (i < n) × (t i ≡ taken)
some_taken zero t h = absurd (omega (arith, h))
some_taken (suc n) t h = elim (Bool-cases (is_free (t n))) [
  | inl e ↦
      let rest : 0 < count_taken n t = ground (arith, e, h) in
      let (i, lt, q) = some_taken n t rest in (i, omega (arith, lt), q)
  | inr e ↦ (n, omega arith, is_free-taken (t n) e)
]

release_one :
    (k : ℕ) (t : Table) (n : ℕ)
    → count_taken k t ≡ suc n
    → (i : ℕ) × (i < k) × (t i ≡ taken) × (count_taken k (update t i free) ≡ n)
release_one k t n c =
    let (i, lt, q) = some_taken k t (omega (arith, c)) in
    (i, lt, q, omega (arith, count-release k t i lt q, c))

predecessor : (k : ℕ) → 0 < k → (n : ℕ) × (k ≡ suc n)
predecessor zero h = absurd (omega (arith, h))
predecessor (suc n) h = (n, refl)

-- The state after handle `i` has been closed and `n` are still open.
abbrev without : State → ℕ → ℕ → State
without s i n = record s {
  free_open_file_entries = update s.free_open_file_entries i free;
  open_files = negsuc n;
  locked = false;
}

close_one :
    (s : State) (i n : ℕ) (signal : Bool)
    → (n == 0) ≡ signal
    → i < max_open_files
    → s.free_open_file_entries i ≡ taken
    → s.locked ≡ false
    → s.open_files ≡ negsuc (suc n)
    → tfs_close s (pos i) ≡ some (without s i n, (pos 0, signal))
unfolding tfs_close synchronized close_counted remove_from_open_file_table
close_one s i n signal g lt t unlocked e =
    let small : ltb i max_open_files ≡ true = lt→ltb i max_open_files lt in
    rw
      (
        tfs_close, synchronized, unlocked, close_counted, remove_from_open_file_table, small, t, e,
        g,
      )
      refl

closes_all :
    (n : ℕ) (s : State)
    → s.locked ≡ false
    → s.open_files ≡ negsuc (suc n)
    → open_count s ≡ suc n
    → (s1 : State) × Closing s (suc n) s1 × (open_count s1 ≡ 0) × (s1.locked ≡ false)
closes_all zero s unlocked e c =
    let (i, lt, t, less) = release_one max_open_files s.free_open_file_entries 0 c in
    let s1 = without s i 0 in
    (s1, last s s1 (pos i) (close_one s i 0 true refl lt t unlocked e), less, refl)
closes_all (suc n) s unlocked e c =
    let (i, lt, t, less) = release_one max_open_files s.free_open_file_entries (suc n) c in
    let s1 = without s i (suc n) in
    let closed = close_one s i (suc n) false (suc_nonzero n) lt t unlocked e in
    let (s2, rest, z, unlocked2) = closes_all n s1 refl refl less in
    (s2, next s s1 s2 (pos i) (suc n) closed rest, z, unlocked2)

closing-Reachable :
    (s0 s s1 : State) (n : ℕ) → Closing s n s1 → Reachable s0 s waiting → Reachable s0 s1 past
closing-Reachable s0 _ _ _ (last s s1 fhandle e) h = closes s s1 waiting fhandle (pos 0) true h e
closing-Reachable s0 _ _ _ (next s s1 s2 fhandle n e rest) h =
    closing-Reachable s0 s1 s2 n rest (closes s s1 waiting fhandle (pos 0) false h e)

-- Take a state of Parte2 in which tfs_destroy_after_all_closed waits, reached by returned calls
-- from one in which openFiles is the number of open handles, with the lock free. Then as many
-- successful calls of tfs_close as there are open handles, of which only the last signals
-- condVar, reach a state past the wait, with no handle open and the lock free.
pub waiting-Closing :
    (s0 s : State)
    → s0.open_files ≡ pos (open_count s0)
    → Reachable s0 s waiting
    → s.locked ≡ false
    → (s1 : State) × Closing s (open_count s) s1
      × Reachable s0 s1 past
      × (open_count s1 ≡ 0)
      × (s1.locked ≡ false)
waiting-Closing s0 s c h unlocked =
    let (counter, some_open) = reachable-CountedIn s0 s waiting c h in
    let (n, e) = predecessor (open_count s) some_open in
    let (s1, closing, z, unlocked1) = closes_all n s unlocked (counter ∙ ap negsuc e) e in
    (
      s1,
      subst (λ k. Closing s k s1) (sym e) closing,
      closing-Reachable s0 s s1 (suc n) closing h,
      z,
      unlocked1,
    )
