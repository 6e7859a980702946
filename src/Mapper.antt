-- ===== src/Mapper.antt =====
-- tetanes-core/src/mapper.rs: what a cartridge's board does with an address, and the boards.
pub mod Mirroring
pub mod Boards
pub mod VrcIrq
use tetanes.Base.{ℕ, Bool, Option, none, some, List, [], ◌∷◌, leb, ◌&&◌}
use mathlib.Core.Option
use tetanes.Mem.Banks.{Banks, Error, NewResult, ok, err, panic, set_bank, translate}
use tetanes.Cart.{Cart}

pub data MappedRead : Type 0 where
  bus : MappedRead
  chr ciram exram prg_rom prg_ram data_byte : ℕ → MappedRead

pub data MappedWrite : Type 0 where
  none_write bus_write : MappedWrite
  chr_ram ciram exram prg_ram : ℕ → ℕ → MappedWrite
  prg_ram_protect : Bool → MappedWrite

-- What loading a board gives: the board and the cartridge that it changes, an error of its banks,
-- or a panic.
pub data Loaded (M : Type 0) : Type 0 where
  loaded : M → Cart → Loaded M
  failed : Error → Loaded M
  panicked : Loaded M

abbrev pub with_banks : {M : Type 0} → NewResult → (Banks → Loaded M) → Loaded M
with_banks (ok banks) k = k banks
with_banks (err e) k = failed e
with_banks panic k = panicked

abbrev pub option_loaded : {M : Type 0} → Option Banks → (Banks → Loaded M) → Loaded M
option_loaded none k = panicked
option_loaded (some banks) k = k banks

-- The range patterns of the source.
abbrev pub within : ℕ → ℕ → ℕ → Bool
within addr lo hi = leb lo addr && leb addr hi

abbrev pub translated : (ℕ → MappedRead) → Banks → ℕ → Option MappedRead
translated to banks addr = Option.map to (translate banks addr)

-- A sequence of switches: each slot with the page that it gets.
abbrev pub switch : List (ℕ × ℕ) → Banks → Option Banks
switch [] banks = some banks
switch ((bank, page) ∷ rest) banks = Option.bind (set_bank bank page banks) (switch rest)
