-- ===== src/Pool/Inv.antt =====
-- The representation of a pool: `A` are the units in use, `F` the free ones.
use xyz.Prelude.{ℕ, ◌+◌, ◌*◌, ◌^◌, ◌≤◌, ◌<◌, ◌≡◌, ◌≢◌, true, false, List, length, All}
use xyz.Pool.{Pool, header}
use xyz.Pool.Dll.{has, Dll, Distinct}

-- A unit lies in the block, and so does the first byte behind its header.
abbrev pub InBlock : Pool → ℕ → Type 0
InBlock p x = (p.block ≤ x) × (x + header < p.block + p.block_size)

pub record IsPool (p : Pool) (A F : List ℕ) : Type 0 where
  pub alloc_list : Dll p.links 0 p.alloc A
  pub free_list : Dll p.links 0 p.free F
  pub alloc_distinct : Distinct A
  pub free_distinct : Distinct F
  pub apart : (y : ℕ) → has y A ≡ true → has y F ≡ false
  pub alloc_inside : All (InBlock p) A
  pub free_inside : All (InBlock p) F
  pub has_block : p.block ≢ 0
  pub has_size : 0 < p.unit_size
  pub capacity : (length A + length F) * (p.unit_size + header) ≡ p.block_size
  pub fits : p.block_size < 2 ^ 64
  pub used : p.len_alloc ≡ length A * p.unit_size
  pub left : p.len_alloc + p.len_free ≡ p.block_size
