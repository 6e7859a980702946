-- ===== src/Mem/Memory.antt =====
-- `Memory` and `RamState` of tetanes-core/src/mem.rs. The random bytes come from a crate: byte
-- `i` of a fill is `rng i`.
use tetanes.Base.{ℕ, zero, suc, ◌+◌, List, [], ◌∷◌, length, replicate}

pub data RamState : Type 0 where
  all_zeros all_ones random : RamState

-- A byte for each of the memory's, the first of them that of position `i`.
unfoldable pub fill_random : (ℕ → ℕ) → ℕ → List ℕ → List ℕ
fill_random rng i [] = []
fill_random rng i (val ∷ rest) = rng i ∷ fill_random rng (i + 1) rest

unfoldable pub fill_ram : (ℕ → ℕ) → RamState → List ℕ → List ℕ
unfolding fill_random
fill_ram rng RamState.all_zeros ram = replicate (length ram) 0x00
fill_ram rng RamState.all_ones ram = replicate (length ram) 0xff
fill_ram rng RamState.random ram = fill_random rng 0 ram

unfoldable pub with_size : ℕ → List ℕ
with_size size = replicate size 0

unfoldable pub ram : (ℕ → ℕ) → RamState → ℕ → List ℕ
unfolding fill_ram with_size
ram rng state size = fill_ram rng state (with_size size)

-- `Vec::resize` with 0.
unfoldable pub resize : List ℕ → ℕ → List ℕ
resize xs zero = []
resize [] (suc n) = 0 ∷ resize [] n
resize (x ∷ xs) (suc n) = x ∷ resize xs n
