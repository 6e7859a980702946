-- ===== src/Cart.antt =====
-- tetanes-core/src/cart.rs: the header of a ROM file and the cartridge that is made of it. The
-- database of games is a parameter; a cartridge has its memories, and its name is left out.
pub mod Header
pub mod Headers
pub mod Loading
use tetanes.Base.{
  ℕ, ◌*◌, ◌%◌, Bool, true, false, not, ◌||◌, if◌then◌else◌, ltb, leb, ◌==◌, List, [], length,
  Option, some, none, bit_and, has_bits, usize_mod, ◌<<<◌,
}
use tetanes.Common.{NesRegion}
use tetanes.Mem.Memory.{RamState, fill_ram, resize}
use tetanes.Cart.Header.{NesVariant, NesHeader, Error, invalid_header, Result, ok, err}
use tetanes.Mapper.Mirroring.{Mirroring, vertical, horizontal, four_screen}

-- The numbers of banks are in units of 16K and 8K.
abbrev pub prg_rom_bank_size : ℕ
prg_rom_bank_size = 0x4000

abbrev pub chr_rom_bank_size : ℕ
chr_rom_bank_size = 0x2000

pub record GameInfo : Type 0 where
  pub crc32 : ℕ
  pub region : NesRegion
  pub mapper_num : ℕ
  pub submapper_num : ℕ

pub record Cart : Type 0 where
  pub header : NesHeader
  pub region : NesRegion
  pub ram_state : RamState
  pub chr_rom : List ℕ
  pub chr_ram : List ℕ
  pub prg_rom : List ℕ
  pub prg_ram : List ℕ
  pub ex_ram : List ℕ
  pub game_info : Option GameInfo

abbrev is_empty : List ℕ → Bool
is_empty xs = length xs == 0

unfoldable pub has_chr_rom : Cart → Bool
has_chr_rom c = not (is_empty c.chr_rom)

unfoldable pub has_chr_ram : Cart → Bool
has_chr_ram c = not (is_empty c.chr_ram)

unfoldable pub has_prg_ram : Cart → Bool
has_prg_ram c = not (is_empty c.prg_ram)

abbrev ines_variant : NesVariant → Bool
ines_variant NesVariant.nes2 = false
ines_variant _ = true

unfoldable pub is_ines : Cart → Bool
is_ines c = ines_variant c.header.variant

abbrev nes2_variant : NesVariant → Bool
nes2_variant NesVariant.nes2 = true
nes2_variant _ = false

unfoldable pub is_nes2 : Cart → Bool
is_nes2 c = nes2_variant c.header.variant

unfoldable pub battery_backed : Cart → Bool
battery_backed c = has_bits c.header.flags 0x02

unfoldable pub mirroring : Cart → Mirroring
mirroring c =
    if has_bits c.header.flags 0x08
    then four_screen
    else if bit_and c.header.flags 0x01 == 0
    then horizontal
    else vertical

info_or : Option GameInfo → (GameInfo → ℕ) → ℕ → ℕ
info_or none field default = default
info_or (some info) field default = field info

unfoldable pub mapper_num : Cart → ℕ
unfolding info_or
mapper_num c = info_or c.game_info (λ info. info.mapper_num) c.header.mapper_num

unfoldable pub submapper_num : Cart → ℕ
unfolding info_or
submapper_num c = info_or c.game_info (λ info. info.submapper_num) c.header.submapper_num

module _ (rng : ℕ → ℕ) where
  unfoldable pub add_prg_ram : ℕ → Cart → Cart
  add_prg_ram capacity c = record c {
    prg_ram = fill_ram rng c.ram_state (resize c.prg_ram capacity);
  }

  unfoldable pub add_chr_ram : ℕ → Cart → Cart
  add_chr_ram capacity c = record c {
    chr_ram = fill_ram rng c.ram_state (resize c.chr_ram capacity);
  }

  unfoldable pub add_exram : ℕ → Cart → Cart
  add_exram capacity c = record c { ex_ram = fill_ram rng c.ram_state (resize c.ex_ram capacity) }

-- `64usize.checked_shl(value)`, whose upper bits are lost.
unfoldable pub calculate_ram_size : ℕ → Result ℕ
calculate_ram_size value =
    if ltb 0 value
    then (if ltb value 64 then ok ((64 <<< value) % usize_mod) else err (invalid_header 11 value))
    else ok 0
