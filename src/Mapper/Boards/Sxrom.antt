-- ===== src/Mapper/Boards/Sxrom.antt =====
-- `Sxrom` (MMC1) of tetanes-core/src/mapper/m001_sxrom.rs; `none` where the source panics.
pub mod Shifting
pub mod Serial
use tetanes.Base.{
  ℕ, ◌-◌, ◌*◌, Bool, true, false, not, ◌&&◌, ◌||◌, if◌then◌else◌, ltb, ◌==◌, [], ◌∷◌, Option, some,
  length, bit_and, bit_or, has_bits, ◌<<<◌, ◌>>>◌,
}
use mathlib.Core.Option
use tetanes.Common.{ResetKind, is_hard}
use tetanes.Mem.Banks.{Banks, new, set_range, last, translate}
use tetanes.Mapper.{
  MappedRead, MappedWrite, Loaded, loaded, with_banks, option_loaded, within, translated, switch,
}
use tetanes.Mapper.Mirroring.{Mirroring}
use tetanes.Cart.{Cart, has_chr_rom, has_prg_ram, add_prg_ram, add_chr_ram, submapper_num}
use tetanes.Cart

pub data Revision : Type 0 where
  rev_a rev_bc : Revision

pub record Regs : Type 0 where
  pub write_just_occurred : ℕ
  pub shift_register : ℕ
  pub control : ℕ
  pub chr0 : ℕ
  pub chr1 : ℕ
  pub prg : ℕ

pub record Sxrom : Type 0 where
  pub regs : Regs
  pub submapper_num : ℕ
  pub mirroring : Mirroring
  pub revision : Revision
  pub chr_select : Bool
  pub chr_banks : Banks
  pub prg_ram_banks : Banks
  pub prg_rom_banks : Banks

abbrev pub default_shift_register : ℕ
default_shift_register = 0x10

abbrev pub default_prg_mode : ℕ
default_prg_mode = 0x0c

abbrev pub prg_ram_disabled : ℕ
prg_ram_disabled = 0x10

abbrev pub is_rev_a : Revision → Bool
is_rev_a Revision.rev_a = true
is_rev_a Revision.rev_bc = false

-- The mirroring of the lower two bits of the control register.
unfoldable pub mirroring_of : ℕ → Mirroring
mirroring_of control =
    let mode = bit_and control 0x03 in
    if mode == 0
    then Mirroring.single_screen_a
    else if mode == 1
    then Mirroring.single_screen_b
    else if mode == 2
    then Mirroring.vertical
    else Mirroring.horizontal

unfoldable pub update_chr_banks : Regs → Banks → Option Banks
update_chr_banks r banks =
    if has_bits r.control 0x10
    then switch ((0, r.chr0) ∷ (1, r.chr1) ∷ []) banks
    else set_range 0 1 (bit_and r.chr0 0x1e) banks

-- The bank of a ROM of 512K, which a CHR register selects.
unfoldable pub bank_select : ℕ → Sxrom → ℕ
bank_select addr m =
    let extra_reg =
      if within addr 0xc000 0xdfff && has_bits m.regs.control 0x10
      then m.regs.chr1
      else m.regs.chr0 in
    if m.chr_select then bit_and extra_reg 0x10 else 0

unfoldable pub update_prg_banks : ℕ → Sxrom → Option Banks
unfolding bank_select
update_prg_banks addr m =
    let select = bank_select addr m in
    let prg_bank = bit_and m.regs.prg 0x0f in
    let prg_mode = bit_and m.regs.control 0x0c >>> 2 in
    let fixed_last = bit_or select (last m.prg_rom_banks) in
    if m.submapper_num == 5
    then set_range 0 1 0 m.prg_rom_banks
    else if ltb prg_mode 2
    then set_range 0 1 (bit_or select (bit_and prg_bank 0x1e)) m.prg_rom_banks
    else if prg_mode == 2
    then switch ((0, select) ∷ (1, bit_or select prg_bank) ∷ []) m.prg_rom_banks
    else switch ((0, bit_or select prg_bank) ∷ (1, fixed_last) ∷ []) m.prg_rom_banks

unfoldable pub update_banks : ℕ → Sxrom → Option Sxrom
unfolding mirroring_of update_chr_banks update_prg_banks
update_banks addr m = Option.bind (update_chr_banks m.regs m.chr_banks) (λ chr_banks.
    Option.map
      (λ prg_rom_banks. record m {
        mirroring = mirroring_of m.regs.control;
        chr_banks = chr_banks;
        prg_rom_banks = prg_rom_banks;
      })
      (update_prg_banks addr m))

unfoldable pub with_memories : (ℕ → ℕ) → Cart → Cart
with_memories rng c =
    let c1 = if has_prg_ram c then c else add_prg_ram rng (32 * 1024) c in
    if not (has_chr_rom c1) && (length c1.chr_ram == 0) then add_chr_ram rng (8 * 1024) c1 else c1

abbrev option_board : Option Sxrom → Cart → Loaded Sxrom
option_board (some m) c = loaded m c
option_board _ c = Loaded.panicked

unfoldable pub load : (ℕ → ℕ) → Revision → Cart → Loaded Sxrom
unfolding with_memories update_banks
load rng revision c =
    let c1 = with_memories rng c in
    let chr_len = if has_chr_rom c1 then length c1.chr_rom else length c1.chr_ram in
    with_banks (new 0x0000 0x1fff chr_len (4 * 1024)) (λ chr_banks.
      with_banks (new 0x6000 0x7fff (length c1.prg_ram) (8 * 1024)) (λ prg_ram_banks.
        with_banks (new 0x8000 0xffff (length c1.prg_rom) (16 * 1024)) (λ prg_rom_banks.
          option_board
            (update_banks 0x0000 (record {
              regs = record {
                write_just_occurred = 0;
                shift_register = default_shift_register;
                control = default_prg_mode;
                chr0 = 0;
                chr1 = 0;
                prg = 0;
              };
              submapper_num = Cart.submapper_num c1;
              mirroring = Mirroring.single_screen_a;
              revision = revision;
              chr_select = length c1.prg_rom == 0x80000;
              chr_banks = chr_banks;
              prg_ram_banks = prg_ram_banks;
              prg_rom_banks = prg_rom_banks;
            }))
            c1)))

unfoldable pub prg_ram_enabled : Sxrom → Bool
prg_ram_enabled m = is_rev_a m.revision || (bit_and m.regs.prg prg_ram_disabled == 0)

unfoldable pub set_revision : Revision → Sxrom → Sxrom
set_revision revision m = record m { revision = revision }

unfoldable pub map_peek : ℕ → Sxrom → Option MappedRead
unfolding prg_ram_enabled
map_peek addr m =
    if within addr 0x0000 0x1fff
    then translated MappedRead.chr m.chr_banks addr
    else if within addr 0x6000 0x7fff && prg_ram_enabled m
    then translated MappedRead.prg_ram m.prg_ram_banks addr
    else if within addr 0x8000 0xffff
    then translated MappedRead.prg_rom m.prg_rom_banks addr
    else some MappedRead.bus

-- The register that a full shift register goes to, by the address of the last write.
unfoldable pub fill_register : ℕ → Regs → Regs
fill_register addr r =
    let r1 =
      if within addr 0x8000 0x9fff
      then record r { control = r.shift_register }
      else if within addr 0xa000 0xbfff
      then record r { chr0 = bit_and r.shift_register 0x1f }
      else if within addr 0xc000 0xdfff
      then record r { chr1 = bit_and r.shift_register 0x1f }
      else record r { prg = bit_and r.shift_register 0x1f } in
    record r1 { shift_register = default_shift_register }

-- A write to the shift register, whose lowest bit tells that the next one is the fifth.
unfoldable pub write_register : ℕ → ℕ → Sxrom → Option Sxrom
unfolding fill_register update_banks
write_register addr val m =
    let r = record m.regs { write_just_occurred = 2 } in
    let shifted = bit_or (r.shift_register >>> 1) (bit_and val 1 <<< 4) in
    let r1 = record r { shift_register = shifted } in
    if ltb 0 m.regs.write_just_occurred
    then some m
    else if ltb 0 (bit_and val 0x80)
    then some (record m {
      regs = record r { shift_register = default_shift_register; control = bit_or r.control 0x0c };
    })
    else if bit_and r.shift_register 1 == 1
    then update_banks addr (record m { regs = fill_register addr r1 })
    else some (record m { regs = r1 })

unfoldable pub map_write : ℕ → ℕ → Sxrom → Option (MappedWrite × Sxrom)
unfolding prg_ram_enabled write_register
map_write addr val m =
    if within addr 0x0000 0x1fff
    then Option.map (λ at. (MappedWrite.chr_ram at val, m)) (translate m.chr_banks addr)
    else if within addr 0x6000 0x7fff && prg_ram_enabled m
    then Option.map (λ at. (MappedWrite.prg_ram at val, m)) (translate m.prg_ram_banks addr)
    else if within addr 0x8000 0xffff
    then Option.map (λ m1. (MappedWrite.bus_write, m1)) (write_register addr val m)
    else some (MappedWrite.bus_write, m)

unfoldable pub reset : ResetKind → Sxrom → Option Sxrom
unfolding update_banks
reset kind m =
    let r = record m.regs {
      shift_register = default_shift_register;
      control = default_prg_mode;
      prg = prg_ram_disabled;
    } in
    Option.map
      (λ (m1 : Sxrom).
        if is_hard kind
        then record m1 { regs = record m1.regs { write_just_occurred = 0 } }
        else m1)
      (update_banks 0x0000 (record m { regs = r }))

unfoldable pub clock : Sxrom → Sxrom
clock m = record m { regs = record m.regs { write_just_occurred = m.regs.write_just_occurred - 1 } }
