-- ===== src/Mapper/Boards/Nina001.antt =====
-- `Nina001` of tetanes-core/src/mapper/m034_nina001.rs; `none` where the source panics.
use tetanes.Base.{ℕ, ◌-◌, ◌*◌, if◌then◌else◌, ◌==◌, Option, some, length, bit_and}
use mathlib.Core.Option
use tetanes.Mem.Banks.{Banks, new, set_bank, translate}
use tetanes.Mapper.{MappedRead, MappedWrite, Loaded, loaded, with_banks, within, translated}
use tetanes.Cart.{Cart, add_prg_ram}

pub record Nina001 : Type 0 where
  pub chr_banks : Banks
  pub prg_rom_banks : Banks

unfoldable pub load : (ℕ → ℕ) → Cart → Loaded Nina001
load rng cart =
    let c = add_prg_ram rng 8192 cart in
    with_banks (new 0x0000 0x1fff (length c.chr_rom) (4 * 1024)) (λ chr_banks.
      with_banks (new 0x8000 0xffff (length c.prg_rom) (32 * 1024)) (λ prg_rom_banks.
        loaded (record { chr_banks = chr_banks; prg_rom_banks = prg_rom_banks }) c))

unfoldable pub map_peek : ℕ → Nina001 → Option MappedRead
map_peek addr m =
    if within addr 0x0000 0x1fff
    then translated MappedRead.chr m.chr_banks addr
    else if within addr 0x6000 0x7fff
    then some (MappedRead.prg_ram (bit_and addr (8 * 1024 - 1)))
    else if within addr 0x8000 0xffff
    then translated MappedRead.prg_rom m.prg_rom_banks addr
    else some MappedRead.bus

-- The registers lie at the end of the RAM.
unfoldable pub write_register : ℕ → ℕ → Nina001 → Option Nina001
write_register addr val m =
    if addr == 0x7ffd
    then Option.map (λ banks. record m { prg_rom_banks = banks })
        (set_bank 0 (bit_and val 0x01) m.prg_rom_banks)
    else if addr == 0x7ffe
    then Option.map (λ banks. record m { chr_banks = banks })
        (set_bank 0 (bit_and val 0x0f) m.chr_banks)
    else if addr == 0x7fff
    then Option.map (λ banks. record m { chr_banks = banks })
        (set_bank 1 (bit_and val 0x0f) m.chr_banks)
    else some m

unfoldable pub map_write : ℕ → ℕ → Nina001 → Option (MappedWrite × Nina001)
unfolding write_register
map_write addr val m =
    if within addr 0x0000 0x1fff
    then Option.map (λ offset. (MappedWrite.chr_ram offset val, m)) (translate m.chr_banks addr)
    else if within addr 0x6000 0x7fff
    then Option.map (λ m1. (MappedWrite.prg_ram (bit_and addr (8 * 1024 - 1)) val, m1))
        (write_register addr val m)
    else some (MappedWrite.bus_write, m)
