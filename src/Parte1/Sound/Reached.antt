-- ===== src/Parte1/Sound/Reached.antt =====
-- The states of Parte1/tecnicofs-v2 between calls, from tfs_init on.
use so_file_system.Common.{
  ℕ, ◌^◌, ◌<◌, ◌≡◌, refl, sym, ap, subst, ◌∙◌, inl, List, Option, some, false, has_flag, arith, ℤ,
}
use so_file_system.Config.{max_dir_entries, tfs_o_trunc}
use so_file_system.Table.{free_all}
use so_file_system.Directory.Init.{load_int-init_entries}
use so_file_system.Parte1.State.{State}
use so_file_system.Parte1.Operations.{tfs_init, tfs_open, tfs_close}
use so_file_system.Parte1.Transfer.{tfs_write, tfs_read}
use so_file_system.Parte1.Operations.Init.{fresh, tfs_init_eq, fresh-IsWf, fresh_root}
use so_file_system.Parte1.Sound.Defs.{Sound}
use so_file_system.Parte1.Sound.Transfers.{tfs_write-Sound, tfs_read-Sound, tfs_close-Sound}
use so_file_system.Parte1.Sound.Opens.{tfs_open-Sound}

-- The states that returned calls reach from a call of tfs_init on the static storage `s0`. No call
-- of tfs_open truncates a file, and no write is of 2^63 bytes or more.
pub data Reached (s0 : State) : State → Type 0 where
  initialised : {s : State} {r : ℤ} → tfs_init s0 ≡ (s, r) → Reached s0 s
  opens :
      {s s1 : State} {r : ℤ} (name : Option (List ℕ)) (flags : ℕ)
      → Reached s0 s
      → has_flag flags tfs_o_trunc ≡ false
      → tfs_open s name flags ≡ (s1, r)
      → Reached s0 s1
  closes :
      {s s1 : State} {r : ℤ} (fhandle : ℤ)
      → Reached s0 s
      → tfs_close s fhandle ≡ (s1, r)
      → Reached s0 s1
  writes :
      {s s1 : State} {r : ℤ} (fhandle : ℤ) (buf : List ℕ) (n : ℕ)
      → Reached s0 s
      → n < 2 ^ 63
      → tfs_write s fhandle buf n ≡ some (s1, r)
      → Reached s0 s1
  reads :
      {s s1 : State} {r : ℤ} {out : List ℕ} (fhandle : ℤ) (len : ℕ)
      → Reached s0 s
      → tfs_read s fhandle len ≡ some (s1, r, out)
      → Reached s0 s1

fresh-Sound : (s : State) → Sound (fresh s) 0
unfolding free_all
fresh-Sound s = record {
  wf = fresh-IsWf s;
  root = fresh_root s;
  root_live = (omega arith, refl);
  named = λ j lt.
      inl (load_int-init_entries max_dir_entries 0 j s.fs_data 0 (omega arith) (omega arith));
  opened = λ h lt e. absurd (ground (arith, lt, e));
}

-- A call with a result has no other.
same_state :
    {o : Option (State × ℤ)} {s1 s2 : State} {x y : ℤ}
    → o ≡ some (s1, x)
    → o ≡ some (s2, y)
    → s1 ≡ s2
same_state e f = cc

same_after_read :
    {o : Option (State × ℤ × List ℕ)} {s1 s2 : State} {x y : ℤ} {l k : List ℕ}
    → o ≡ some (s1, x, l)
    → o ≡ some (s2, y, k)
    → s1 ≡ s2
same_after_read e f = cc

-- Take any sequence of calls of Parte1, from tfs_init on any static storage: tfs_open of any path
-- without TFS_O_TRUNC, tfs_close, tfs_write of less than 2^63 bytes, and tfs_read, each with any
-- arguments and any result. After it the file system is well-formed, with its root directory in
-- block 0; every directory entry is empty or names an i-node in use, not the root's, whose size
-- is within its blocks; and every open handle is on such an i-node, at an offset within its size.
pub reached-Sound : {s0 s : State} → Reached s0 s → Sound s 0
reached-Sound {s0} (initialised e) =
    subst (λ s. Sound s 0) (ap (λ o. o.0) (sym (tfs_init_eq s0) ∙ e)) (fresh-Sound s0)
reached-Sound (opens {s} name flags run keep e) =
    subst (λ s. Sound s 0) (ap (λ o. o.0) e)
      (tfs_open-Sound s 0 name flags (reached-Sound run) keep)
reached-Sound (closes {s} fhandle run e) =
    subst (λ s. Sound s 0) (ap (λ o. o.0) e) (tfs_close-Sound s 0 fhandle (reached-Sound run))
reached-Sound (writes {s} fhandle buf n run small e) =
    let (s1, r, f, sound) = tfs_write-Sound s 0 fhandle (reached-Sound run) buf n small in
    subst (λ s. Sound s 0) (same_state f e) sound
reached-Sound (reads {s} fhandle len run e) =
    let (s1, r, out, f, sound) = tfs_read-Sound s 0 fhandle (reached-Sound run) len in
    subst (λ s. Sound s 0) (same_after_read f e) sound

-- After any sequence of calls of Parte1 from tfs_init on, of tfs_open without TFS_O_TRUNC,
-- tfs_close, tfs_write of less than 2^63 bytes and tfs_read, every tfs_write of less than 2^63
-- bytes and every tfs_read, through any handle, returns, and what it leaves is reached by such a
-- sequence again.
pub reached_returns :
    {s0 s : State}
    → Reached s0 s
    → (fhandle : ℤ) (buf : List ℕ) (n len : ℕ) → n < 2 ^ 63
    → ((s1 : State) × (r : ℤ) × (tfs_write s fhandle buf n ≡ some (s1, r)) × Reached s0 s1)
      × ((s1 : State) × (r : ℤ) × (out : List ℕ) × (tfs_read s fhandle len ≡ some (s1, r, out))
          × Reached s0 s1)
reached_returns {s0} {s} run fhandle buf n len small =
    let (s1, r, e, sound) = tfs_write-Sound s 0 fhandle (reached-Sound run) buf n small in
    let (s2, q, out, f, sound') = tfs_read-Sound s 0 fhandle (reached-Sound run) len in
    ((s1, r, e, writes fhandle buf n run small e), (s2, q, out, f, reads fhandle len run f))
