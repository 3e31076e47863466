-- ===== src/Parte2/Shutdown/Reached.antt =====
-- The shutdown of Parte2/tecnicofs_ex2/fs/operations.c: the states that calls reach.
use so_file_system.Common.{ℕ, ◌≡◌, refl, ℤ, pos, List, true}
use so_file_system.Parte2.State.{State}
use so_file_system.Parte2.Operations.{
  synchronized, tfs_lookup, lookup_unsynchronized, tfs_open, tfs_close, destroy_begin,
}
use so_file_system.Parte2.Transfer.{tfs_write, tfs_read, write_unsynchronized, read_unsynchronized}
use so_file_system.Parte2.Counter.{open_count}
use so_file_system.Parte2.Counter.Transfers.{write-Same, read-Same}
use so_file_system.Parte2.Blocking.{held-AllBlocked}
use so_file_system.Parte2.Shutdown.{
  Phase, running, Reachable, start, opens, closes, writes, reads, looks_up, begins, CountedIn,
}
use so_file_system.Parte2.Shutdown.Steps.{
  returned_unlocked, open_step, close_returned, call_step, begin_step,
}

-- Take any sequence of returned calls of tfs_open, tfs_close, tfs_write, tfs_read, tfs_lookup and
-- one call of tfs_destroy_after_all_closed in Parte2, from a state in which openFiles is the
-- number of open handles. Before the shutdown openFiles is that number; while the shutdown waits
-- it is -(n + 1) for the n open handles, and there are some; and once the shutdown need not wait,
-- or has been signalled, no handle is open.
pub reachable-CountedIn :
    (s0 s : State) (p : Phase)
    → s0.open_files ≡ pos (open_count s0)
    → Reachable s0 s p
    → CountedIn p s
unfolding tfs_lookup tfs_write tfs_read synchronized
reachable-CountedIn s0 _ _ c start = c
reachable-CountedIn s0 _ _ c (opens s s1 p name flags r h e) =
    open_step p s s1 name flags r (reachable-CountedIn s0 s p c h)
      (returned_unlocked s (tfs_open s name flags) (s1, r)
        (λ l. (held-AllBlocked s l).open_file name flags) e)
      e
reachable-CountedIn s0 _ _ c (closes s s1 p fhandle r signal h e) =
    close_returned p s s1 fhandle r signal (reachable-CountedIn s0 s p c h)
      (returned_unlocked s (tfs_close s fhandle) (s1, (r, signal))
        (λ l. (held-AllBlocked s l).close fhandle) e)
      e
reachable-CountedIn s0 _ _ c (writes s s1 p fhandle buf n r h e) =
    call_step p s s1 (λ s. write_unsynchronized s fhandle buf n) r
      (write-Same (record s { locked = true }) fhandle buf n) (reachable-CountedIn s0 s p c h)
      (returned_unlocked s (tfs_write s fhandle buf n) (s1, r)
        (λ l. (held-AllBlocked s l).write fhandle buf n) e)
      e
reachable-CountedIn s0 _ _ c (reads s s1 p fhandle n r out h e) =
    call_step {A = ℤ × List ℕ} p s s1 (λ s. read_unsynchronized s fhandle n) (r, out)
      (read-Same (record s { locked = true }) fhandle n) (reachable-CountedIn s0 s p c h)
      (returned_unlocked s (tfs_read s fhandle n) (s1, (r, out))
        (λ l. (held-AllBlocked s l).read fhandle n) e)
      e
reachable-CountedIn s0 _ _ c (looks_up s s1 p name r h e) =
    call_step p s s1 (λ s. (s, lookup_unsynchronized s name)) r (refl, refl)
      (reachable-CountedIn s0 s p c h)
      (returned_unlocked s (tfs_lookup s name) (s1, r) (λ l. (held-AllBlocked s l).lookup name) e) e
reachable-CountedIn s0 _ _ c (begins s s1 waits h e) =
    begin_step s s1 waits (reachable-CountedIn s0 s running c h)
      (returned_unlocked s (destroy_begin s) (s1, waits) (λ l. (held-AllBlocked s l).destroy) e) e
