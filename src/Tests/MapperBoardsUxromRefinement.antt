-- ===== src/Tests/MapperBoardsUxromRefinement.antt =====
-- Inputs for the theorems of Mapper.Boards.Uxrom.Refinement.
use tetanes.Base.{ℕ, ◌≡◌, arith, List, [], ◌∷◌, length-replicate, replicate, some, none}
use tetanes.Common.{ntsc}
use tetanes.Mem.Memory.{all_zeros}
use tetanes.Cart.{Cart}
use tetanes.Mapper.{loaded}
use tetanes.Mapper.Boards.Uxrom.{Uxrom, load, map_peek}
use tetanes.Mapper.Boards.Uxrom.Refinement.{load-refines, write_all, page_read, pages}
use tetanes.Tests.CartHeaders.{large_header}

-- A cartridge with two banks of 16K.
abbrev small_cart : Cart
small_cart = record {
  header = large_header;
  region = ntsc;
  ram_state = all_zeros;
  chr_rom = [];
  chr_ram = [];
  prg_rom = replicate 0x8000 0;
  prg_ram = [];
  ex_ram = [];
  game_info = none;
}

abbrev zeros : ℕ → ℕ
zeros i = 0

abbrev two_writes : List (ℕ × ℕ)
two_writes = (0x8000, 1) ∷ (0xc000, 6) ∷ []

load-refines_example :
    (m : Uxrom) × (cart' : Cart) × (m' : Uxrom) × (load zeros small_cart ≡ loaded m cart')
    × (write_all two_writes m ≡ some m')
    × ((addr : ℕ) → map_peek addr m' ≡ some (page_read 2 (pages two_writes 0) addr))
load-refines_example =
    load-refines zeros small_cart 2 two_writes (length-replicate {A = ℕ} 0x8000 0) (omega arith)
      (omega arith)
