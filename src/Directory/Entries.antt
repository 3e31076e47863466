-- ===== src/Directory/Entries.antt =====
-- What an entry holds after `add_dir_entry` has filled it, and that the other entries stand.
use so_file_system.Common.{
  ℕ, ◌+◌, ◌-◌, ◌<◌, ◌≤◌, ◌≡◌, sym, ap, ap₂, ◌∙◌, ◌⊎◌, ◌≢◌, ℤ, is_minus_one, FitsInt, List, true,
  false, not, ◌&&◌, arith, length, get_or, dec_lt,
}
use so_file_system.Config.{max_file_name, dir_entry_size}
use so_file_system.Memory.{Bytes, load_int, store_int, strncpy, store_byte, strncmp_eq}
use so_file_system.Memory.Laws.{load_int-store_int, load_int-congr, store_int_outside}
use so_file_system.Directory.{name_at, inumber_at, fill_entry, entry_is}
use so_file_system.Directory.Names.{
  IsText, strncmp-stored, strncmp-differs, strncmp-congr, text_byte, get_or-beyond,
}

store_byte_ne : (m : Bytes) (a v q : ℕ) → q ≢ a → store_byte m a v q ≡ m q
unfolding store_byte
store_byte_ne m a v q ne = ground arith

module _ (m : Bytes) (p i : ℕ) (d : ℤ) (name : List ℕ) where
  -- Outside the 44 bytes of the entry nothing changes.
  pub fill_outside :
      (a : ℕ)
      → (a < name_at p i) ⊎ (name_at p i + dir_entry_size ≤ a)
      → fill_entry m p i d name a ≡ m a
  unfolding fill_entry store_byte strncpy
  fill_outside a off =
      ground (arith, store_int_outside (strncpy m (name_at p i) name 39) (inumber_at p i) d a)

  pub name-fill : (j : ℕ) → j < 39 → fill_entry m p i d name (name_at p i + j) ≡ get_or name j 0
  unfolding fill_entry store_byte strncpy
  name-fill j lt =
      let gone =
        store_int_outside (strncpy m (name_at p i) name 39) (inumber_at p i) d (name_at p i + j)
          (omega arith) in
      let at : name_at p i + j - name_at p i ≡ j = omega arith in
      ground (arith, gone, ap (λ q. get_or name q 0) at)

  pub end-fill : fill_entry m p i d name (name_at p i + 39) ≡ 0
  unfolding fill_entry store_byte
  end-fill = ground arith

  pub inumber-fill : FitsInt d → load_int (fill_entry m p i d name) (inumber_at p i) ≡ d
  unfolding fill_entry
  inumber-fill fit =
      let stored = store_int (strncpy m (name_at p i) name 39) (inumber_at p i) d in
      load_int-congr (fill_entry m p i d name) stored (inumber_at p i)
        (store_byte_ne stored (name_at p i + 39) 0 _ (omega arith))
        (store_byte_ne stored (name_at p i + 39) 0 _ (omega arith))
        (store_byte_ne stored (name_at p i + 39) 0 _ (omega arith))
        (store_byte_ne stored (name_at p i + 39) 0 _ (omega arith))
      ∙ load_int-store_int (strncpy m (name_at p i) name 39) (inumber_at p i) d fit

  pub is-fill_short :
      length name < max_file_name
      → strncmp_eq max_file_name (fill_entry m p i d name) (name_at p i) name ≡ true
  is-fill_short short = strncmp-stored 40 (fill_entry m p i d name) (name_at p i) name λ j lt.
      elim (dec_lt j 39) [
        | yes low ↦ name-fill j low
        | no high ↦
            let last : name_at p i + j ≡ name_at p i + 39 = omega arith in
            ap (fill_entry m p i d name) last ∙ end-fill ∙ sym (get_or-beyond name j (omega arith))
      ]

  pub is-fill_long :
      IsText name
      → max_file_name ≤ length name
      → strncmp_eq max_file_name (fill_entry m p i d name) (name_at p i) name ≡ false
  is-fill_long text long =
      strncmp-differs 40 (fill_entry m p i d name) (name_at p i) name 39 (omega arith) (omega arith)
        (λ e. text_byte name 39 text (omega arith) (sym e ∙ end-fill))

  pub others-fill :
      (k : ℕ) (other : List ℕ)
      → k ≢ i
      → (load_int (fill_entry m p i d name) (inumber_at p k) ≡ load_int m (inumber_at p k))
        × (entry_is (fill_entry m p i d name) p k other ≡ entry_is m p k other)
  others-fill k other ne = (number, ap₂ (λ z b. not (is_minus_one z) && b) number same_name)
    where
      number : load_int (fill_entry m p i d name) (inumber_at p k) ≡ load_int m (inumber_at p k)
      number =
          load_int-congr (fill_entry m p i d name) m (inumber_at p k) (fill_outside _ (omega arith))
            (fill_outside _ (omega arith)) (fill_outside _ (omega arith))
            (fill_outside _ (omega arith))

      same_name :
          strncmp_eq max_file_name (fill_entry m p i d name) (name_at p k) other
          ≡ strncmp_eq max_file_name m (name_at p k) other
      same_name =
          strncmp-congr 40 m (fill_entry m p i d name) (name_at p k) other
            (λ j lt. fill_outside (name_at p k + j) (omega arith))
