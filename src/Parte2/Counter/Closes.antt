-- ===== src/Parte2/Counter/Closes.antt =====
-- openFiles in `tfs_close` and `tfs_destroy_after_all_closed` of Parte2/tecnicofs_ex2/fs/operations.c.
use so_file_system.Common.{
  suc_nonzero, ℕ, zero, suc, ◌<◌, ◌≡◌, refl, sym, ap, ◌∙◌, ◌⊎◌, inl, inr, ℤ, pos, negsuc, minus_one,
  is_minus_one, Option, some, Bool-cases, dec_lt, Bool, true, false, arith, if◌then◌else◌, update,
  ◌==◌, ltb, lt→ltb,
}
use so_file_system.Config.{max_open_files}
use so_file_system.Table.{free, taken, is_free}
use so_file_system.Table.Laws.{is_free-taken}
use so_file_system.Parte2.State.{State}
use so_file_system.Parte2.Tables.{remove_from_open_file_table}
use so_file_system.Parte2.Operations.{
  close_counted, tfs_close, destroy_begin, synchronized, increment, decrement, is_positive,
}
use so_file_system.Parte2.Counter.{count-release, open_count, IsCounted, StaysCounted}

-- Closing one handle takes the counter one nearer to 0 or to -1.
down :
    (k : ℤ) (n m : ℕ)
    → suc m ≡ n
    → (k ≡ pos n) ⊎ (k ≡ negsuc n)
    → let k' = if is_positive k then decrement k else increment k in
      ((k ≡ pos n) × (k' ≡ pos m)) ⊎ ((k ≡ negsuc n) × (k' ≡ negsuc m))
down k n m e (inl h) = inl (h, rw (h, sym e, lt→ltb 0 (suc m) (omega arith)) refl)
down k n m e (inr h) = inr (h, rw (h, sym e) refl)

stays : (s : State) → IsCounted s → StaysCounted s (record s { locked = false })
stays s (inl e) = inl (e, e)
stays s (inr e) = inr (e, e)

remove_cases :
    (s : State) (fhandle : ℤ)
    → (remove_from_open_file_table s fhandle ≡ (s, minus_one))
      ⊎ ((i : ℕ) × (i < max_open_files)
          × (s.free_open_file_entries i ≡ taken)
          × (remove_from_open_file_table s fhandle ≡ (
            record s { free_open_file_entries = update s.free_open_file_entries i free },
            pos 0,
          )))
unfolding remove_from_open_file_table
remove_cases s (negsuc i) = inl refl
remove_cases s (pos i) = elim (dec_lt i max_open_files) [
  | no ge ↦ inl (ground arith)
  | yes lt ↦ elim (Bool-cases (is_free (s.free_open_file_entries i))) [
    | inl e ↦ inl (ground arith)
    | inr e ↦ inr (i, lt, is_free-taken (s.free_open_file_entries i) e, ground arith)
  ]
]

-- A call of `tfs_close` has returned and kept the count: it has failed and every handle is as before,
-- or one handle less is open. It signals condVar exactly where it has succeeded and leaves the
-- counter at -1, which it does only where no handle is open.
pub record Closed (s : State) (out : Option (State × (ℤ × Bool))) : Type 0 where
  pub after : State
  pub result : ℤ
  pub signal : Bool
  pub returns : out ≡ some (after, (result, signal))
  pub counted : StaysCounted s after
  pub outcome :
      ((result ≡ minus_one) × (open_count after ≡ open_count s) × (signal ≡ false))
      ⊎ ((result ≡ pos 0)
          × (suc (open_count after) ≡ open_count s)
          × (signal ≡ is_minus_one after.open_files))

-- Let openFiles count the open handles of Parte2 and the lock be free. Then tfs_close of any
-- handle number returns and openFiles counts the open handles again. The call has failed with -1,
-- left the number of open handles and not signalled, or it has returned 0, one handle less is
-- open, and it has signalled condVar exactly if openFiles is -1.
pub tfs_close-Closed :
    (s : State) (fhandle : ℤ) → IsCounted s → s.locked ≡ false → Closed s (tfs_close s fhandle)
unfolding tfs_close close_counted synchronized
tfs_close-Closed s fhandle count unlocked =
    let held = record s { locked = true } in
    elim (remove_cases held fhandle) [
      | inl e ↦ record {
        after = record s { locked = false };
        result = minus_one;
        signal = false;
        returns = rw (unlocked, tfs_close, close_counted, e) refl;
        counted = stays s count;
        outcome = inl (refl, refl, refl);
      }
      | inr (i, lt, t, e) ↦
          let n =
            if is_positive s.open_files then decrement s.open_files else increment s.open_files in
          let less = count-release max_open_files s.free_open_file_entries i lt t in
          record {
            after = record s {
              free_open_file_entries = update s.free_open_file_entries i free;
              open_files = n;
              locked = false;
            };
            result = pos 0;
            signal = is_minus_one n;
            returns = rw (unlocked, tfs_close, close_counted, e) refl;
            counted = down s.open_files (open_count s) _ less count;
            outcome = inr (refl, less, refl);
          }
    ]

zero_or_suc : (n : ℕ) → (n ≡ 0) ⊎ ((m : ℕ) × (n ≡ suc m))
zero_or_suc zero = inl refl
zero_or_suc (suc m) = inr (m, refl)

-- Where openFiles is the number of open handles of Parte2 and the lock is free,
-- tfs_destroy_after_all_closed sets it to minus one less than that number, leaves that number,
-- and waits exactly if it is not 0.
pub destroy_begin-waits :
    (s : State)
    → s.open_files ≡ pos (open_count s)
    → s.locked ≡ false
    → (s1 : State) × (waits : Bool) × (destroy_begin s ≡ some (s1, waits))
      × (s1.open_files ≡ negsuc (open_count s1))
      × (open_count s1 ≡ open_count s)
      × (waits ≡ ltb 0 (open_count s))
unfolding destroy_begin
destroy_begin-waits s e unlocked = elim (zero_or_suc (open_count s)) [
  | inl z ↦
      let e0 : s.open_files ≡ pos 0 = e ∙ ap pos z in
      (
        record s { open_files = minus_one; locked = true },
        false,
        rw (unlocked, e0, destroy_begin) refl,
        ap negsuc (sym z),
        refl,
        rw z refl,
      )
  | inr (n, z) ↦
      let e1 : s.open_files ≡ pos (suc n) = e ∙ ap pos z in
      let ne : (suc n == 0) ≡ false = suc_nonzero n in
      (
        record s { open_files = negsuc (suc n) },
        true,
        rw (unlocked, e1, destroy_begin, ne) refl,
        ap negsuc (sym z),
        refl,
        rw z (sym (lt→ltb 0 (suc n) (omega arith))),
      )
]
