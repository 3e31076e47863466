-- ===== src/Exclusive.antt =====
-- Exclusive ownership of numbered blocks: a relation `R i k b` says that place `k` of owner `i` holds
-- block `b`. It is exclusive if every held block is allocated and no block is held twice.
use so_file_system.Common.{ℕ, ◌<◌, ◌≡◌, sym, ◌∙◌, ◌⊎◌, inl, inr, ◌≢◌, arith, update, ap}
use so_file_system.Table.{free, taken, Table}

abbrev pub Owning : Type 1
Owning = ℕ → ℕ → ℕ → Type 0

pub record IsExclusive (limit : ℕ) (R : Owning) (t : Table) : Type 0 where
  pub allocated : (i k b : ℕ) → R i k b → (b < limit) × (t b ≡ taken)
  pub unique : (i k j l b : ℕ) → R i k b → R j l b → (i ≡ j) × (k ≡ l)

free≢taken : free ≢ taken
free≢taken h = cc

-- `R` with one more place filled.
abbrev pub Extended : Owning → ℕ → ℕ → ℕ → Owning
Extended R i₀ k₀ b₀ i k b = R i k b ⊎ ((i ≡ i₀) × (k ≡ k₀) × (b ≡ b₀))

update_taken : (t : Table) (b₀ b : ℕ) → t b ≡ taken → update t b₀ taken b ≡ taken
update_taken t b₀ b h = ground arith

update_self : (t : Table) (b : ℕ) → update t b taken b ≡ taken
update_self t b = ground arith

-- Filling a place with a block that was free keeps ownership exclusive.
pub extend-IsExclusive :
    (limit : ℕ) (R : Owning) (t : Table) (i₀ k₀ b₀ : ℕ)
    → IsExclusive limit R t
    → b₀ < limit
    → t b₀ ≡ free
    → IsExclusive limit (Extended R i₀ k₀ b₀) (update t b₀ taken)
extend-IsExclusive limit R t i₀ k₀ b₀ x h f = record { allocated = held; unique = once }
  where
    fresh : (i k b : ℕ) → R i k b → b ≡ b₀ → ⊥
    fresh i k b r e = free≢taken (sym f ∙ ap t (sym e) ∙ (x.allocated i k b r).1)

    held : (i k b : ℕ) → Extended R i₀ k₀ b₀ i k b → (b < limit) × (update t b₀ taken b ≡ taken)
    held i k b (inl r) = ((x.allocated i k b r).0, update_taken t b₀ b (x.allocated i k b r).1)
    held i k b (inr (p, q, e)) = (omega arith, rw e (update_self t b₀))

    once :
        (i k j l b : ℕ) → Extended R i₀ k₀ b₀ i k b → Extended R i₀ k₀ b₀ j l b → (i ≡ j) × (k ≡ l)
    once i k j l b (inl r) (inl r') = x.unique i k j l b r r'
    once i k j l b (inl r) (inr (p, q, e)) = absurd (fresh i k b r e)
    once i k j l b (inr (p, q, e)) (inl r) = absurd (fresh j l b r e)
    once i k j l b (inr (p, q, e)) (inr (p', q', e')) = (p ∙ sym p', q ∙ sym q')

-- Places may be given up, and blocks freed that no remaining place holds.
pub shrink-IsExclusive :
    (limit : ℕ) (R R' : Owning) (t t' : Table)
    → IsExclusive limit R t
    → ((i k b : ℕ) → R' i k b → R i k b)
    → ((i k b : ℕ) → R' i k b → t' b ≡ t b)
    → IsExclusive limit R' t'
shrink-IsExclusive limit R R' t t' x sub same = record {
  allocated = λ i k b r.
      ((x.allocated i k b (sub i k b r)).0, same i k b r ∙ (x.allocated i k b (sub i k b r)).1);
  unique = λ i k j l b r r'. x.unique i k j l b (sub i k b r) (sub j l b r');
}
