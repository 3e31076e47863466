-- ===== src/Parte1/Ownership/Writes.antt =====
-- A write of some bytes of a buffer at a position of one file, and nothing else.
use so_file_system.Common.{
  ℕ, ◌+◌, ◌-◌, ◌*◌, ◌/◌, ◌%◌, ◌<◌, ◌≤◌, ◌≡◌, refl, sym, ap, subst, ◌∙◌, ◌⊎◌, inl, inr, ◌≢◌, pos,
  index, arith, ℕ_discrete, dec_lt, List, get_or,
}
use so_file_system.Config.{block_size, max_inode_blocks}
use so_file_system.Memory.{Bytes, memcpy}
use so_file_system.Memory.Laws.{memcpy_inside, memcpy_outside}
use so_file_system.Parte1.State.{State}
use so_file_system.Parte1.Ownership.{number_of, Used, InUse, Holds, IsWf, byte_at}
use so_file_system.Parte1.Ownership.Places.{AgreesOff, byte-AgreesOff, number-AgreesOff}
use so_file_system.Parte1.Ownership.Grow.{grow-IsWf}

-- `n` bytes of `buf` from `from` on are at position `start` of the file `ino`; every other byte of
-- every file, and all but raw memory, is as before.
pub record Writes (s s' : State) (ino start n : ℕ) (buf : List ℕ) (from : ℕ) : Type 0 where
  pub wf : IsWf s'
  pub same_inodes : s'.inode_table ≡ s.inode_table
  pub same_use : s'.freeinode_ts ≡ s.freeinode_ts
  pub same_blocks : s'.free_blocks ≡ s.free_blocks
  pub same_files : s'.open_file_table ≡ s.open_file_table
  pub same_handles : s'.free_open_file_entries ≡ s.free_open_file_entries
  pub inside : (j : ℕ) → j < n → byte_at s' ino (start + j) ≡ get_or buf (from + j) 0
  pub outside :
      (i q : ℕ)
      → InUse s i
      → q < (s.inode_table i).blocks_alloc * block_size
      → (i ≢ ino) ⊎ ((q < start) ⊎ (start + n ≤ q))
      → byte_at s' i q ≡ byte_at s i q

pub Writes-nothing :
    (s : State) (ino start : ℕ) (buf : List ℕ) (from : ℕ) → IsWf s → Writes s s ino start 0 buf from
Writes-nothing s ino start buf from wf = record {
  wf = wf;
  same_inodes = refl;
  same_use = refl;
  same_blocks = refl;
  same_files = refl;
  same_handles = refl;
  inside = λ j h. absurd (omega arith);
  outside = λ i q _ _ _. refl;
}

pub Writes-live :
    (s s' : State) (ino start n : ℕ) (buf : List ℕ) (from i : ℕ)
    → Writes s s' ino start n buf from
    → InUse s i
    → InUse s' i
Writes-live s s' ino start n buf from i w live = (live.0, ap (λ f. f i) w.same_use ∙ live.1)

-- Two writes, one behind the other.
pub Writes-append :
    (s t u : State) (ino start n m : ℕ) (buf : List ℕ) (from : ℕ)
    → InUse s ino
    → start + n ≤ (s.inode_table ino).blocks_alloc * block_size
    → Writes s t ino start n buf from
    → Writes t u ino (start + n) m buf (from + n)
    → Writes s u ino start (n + m) buf from
Writes-append s t u ino start n m buf from live fits w v = record {
  wf = v.wf;
  same_inodes = v.same_inodes ∙ w.same_inodes;
  same_use = v.same_use ∙ w.same_use;
  same_blocks = v.same_blocks ∙ w.same_blocks;
  same_files = v.same_files ∙ w.same_files;
  same_handles = v.same_handles ∙ w.same_handles;
  inside = λ j h. elim (dec_lt j n) [
    | yes first ↦
        v.outside ino (start + j) (Writes-live s t ino start n buf from ino w live)
          (rw w.same_inodes (omega arith)) (inr (inl (omega arith)))
        ∙ w.inside j first
    | no second ↦
        let at : start + n + (j - n) ≡ start + j = omega arith in
        let src : from + n + (j - n) ≡ from + j = omega arith in
        subst (λ q. byte_at u ino q ≡ get_or buf (from + j) 0) at
          (v.inside (j - n) (omega arith) ∙ ap (λ a. get_or buf a 0) src)
  ];
  outside = λ i q live' h off.
      v.outside i q (Writes-live s t ino start n buf from i w live') (rw w.same_inodes h)
        (after i q off)
      ∙ w.outside i q live' h (before i q off);
}
  where
    after :
        (i q : ℕ)
        → (i ≢ ino) ⊎ ((q < start) ⊎ (start + (n + m) ≤ q))
        → (i ≢ ino) ⊎ ((q < start + n) ⊎ (start + n + m ≤ q))
    after i q (inl ne) = inl ne
    after i q (inr o) = inr (omega arith)

    before :
        (i q : ℕ)
        → (i ≢ ino) ⊎ ((q < start) ⊎ (start + (n + m) ≤ q))
        → (i ≢ ino) ⊎ ((q < start) ⊎ (start + n ≤ q))
    before i q (inl ne) = inl ne
    before i q (inr o) = inr (omega arith)

-- One `memcpy` into the data block `b` that place `k` of the file holds.
module _ (s : State) (ino k b at n : ℕ) (buf : List ℕ) (from : ℕ) (wf : IsWf s)
    (held : Holds s ino k b) (low : k < max_inode_blocks) (fits : at + n ≤ block_size) where
  abbrev pub memory_after : Bytes
  memory_after = memcpy s.fs_data (b * block_size + at) buf from n

  abbrev pub copied : State
  copied = record s { fs_data = memory_after }

  copied-AgreesOff : AgreesOff s.fs_data memory_after b
  copied-AgreesOff a off = memcpy_outside s.fs_data (b * block_size + at) buf from n a (omega arith)

  copied_kept :
      (i j : ℕ)
      → InUse s i
      → Used (s.inode_table i) j
      → number_of memory_after (s.inode_table i) j ≡ number_of s.fs_data (s.inode_table i) j
  copied_kept i j live u =
      number-AgreesOff s memory_after b i j wf live u copied-AgreesOff
        (λ h. absurd (omega (arith, (wf.exclusive.unique i max_inode_blocks ino k b h held).1)))

  copied-IsWf : IsWf copied
  copied-IsWf =
      grow-IsWf s copied ino (Holds s) wf
        (record {
          same_use = refl;
          others = λ i ne. refl;
          bound = wf.bounded ino held.0;
          kept = copied_kept;
          old = λ i j c h. h;
          new = λ j u. inl u;
        })
        wf.exclusive

  copied_inside :
      (j : ℕ) → j < n → byte_at copied ino (k * block_size + at + j) ≡ get_or buf (from + j) 0
  copied_inside j h =
      let q : ℕ = k * block_size + at + j in
      let place : q / block_size ≡ k = omega arith in
      let number =
        ap (number_of memory_after (s.inode_table ino)) place
        ∙ copied_kept ino k held.0 held.1
        ∙ held.2 in
      let shift : from + (b * block_size + q % block_size - (b * block_size + at)) ≡ from + j =
        omega arith in
      ap (λ z. memory_after (index z * block_size + q % block_size)) number
      ∙ memcpy_inside s.fs_data (b * block_size + at) buf from n (b * block_size + q % block_size)
          (omega arith) (omega arith)
      ∙ ap (λ a. get_or buf a 0) shift

  copied_outside :
      (i q : ℕ)
      → InUse s i
      → q < (s.inode_table i).blocks_alloc * block_size
      → (i ≢ ino) ⊎ ((q < k * block_size + at) ⊎ (k * block_size + at + n ≤ q))
      → byte_at copied i q ≡ byte_at s i q
  copied_outside i q live h off =
      let u : Used (s.inode_table i) (q / block_size) = inl (omega arith) in
      let (c, e) = wf.filled i (q / block_size) live u in
      let cell : memory_after (c * block_size + q % block_size)
          ≡ s.fs_data (c * block_size + q % block_size) =
        elim (ℕ_discrete c b) [
          | yes same ↦
              let both =
                wf.exclusive.unique i (q / block_size) ino k b (live, u, e ∙ ap pos same) held in
              memcpy_outside s.fs_data (b * block_size + at) buf from n
                (c * block_size + q % block_size) (beyond off both same)
          | no ne ↦
              byte-AgreesOff s.fs_data memory_after b c (q % block_size) copied-AgreesOff ne
                (omega arith)
        ] in
      ap (λ z. memory_after (index z * block_size + q % block_size))
        (copied_kept i (q / block_size) live u ∙ e)
      ∙ cell
      ∙ sym (ap (λ z. s.fs_data (index z * block_size + q % block_size)) e)
    where
      beyond :
          {c : ℕ}
          → (i ≢ ino) ⊎ ((q < k * block_size + at) ⊎ (k * block_size + at + n ≤ q))
          → (i ≡ ino) × (q / block_size ≡ k)
          → c ≡ b
          → (c * block_size + q % block_size < b * block_size + at)
            ⊎ (b * block_size + at + n ≤ c * block_size + q % block_size)
      beyond (inl ne) both same = absurd (ne both.0)
      beyond (inr o) both same = omega arith

  pub copied-Writes : Writes s copied ino (k * block_size + at) n buf from
  copied-Writes = record {
    wf = copied-IsWf;
    same_inodes = refl;
    same_use = refl;
    same_blocks = refl;
    same_files = refl;
    same_handles = refl;
    inside = copied_inside;
    outside = copied_outside;
  }
