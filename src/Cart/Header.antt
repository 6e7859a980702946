-- ===== src/Cart/Header.antt =====
-- `NesHeader` of tetanes-core/src/cart.rs. The 16 bytes of the file are a function of their
-- position; an error has the position and the byte that it reports, and no message.
use tetanes.Base.{
  ℕ, zero, suc, ◌+◌, ◌&&◌, ◌||◌, if◌then◌else◌, ltb, ◌==◌, List, length, get_or, bit_and, bit_or,
  ◌<<<◌, ◌>>>◌, has_bits, not,
}

pub data NesVariant : Type 0 where
  archaic_ines ines07 ines nes2 : NesVariant

pub record NesHeader : Type 0 where
  pub variant : NesVariant
  pub mapper_num : ℕ
  pub submapper_num : ℕ
  pub flags : ℕ
  pub prg_rom_banks : ℕ
  pub chr_rom_banks : ℕ
  pub prg_ram_shift : ℕ
  pub chr_ram_shift : ℕ
  pub tv_mode : ℕ
  pub vs_data : ℕ

pub data Error : Type 0 where
  invalid_header : ℕ → ℕ → Error

pub data Result (A : Type 0) : Type 0 where
  ok : A → Result A
  err : Error → Result A

-- The `?` of the source.
abbrev pub and_then : {A B : Type 0} → Result A → (A → Result B) → Result B
and_then (ok a) f = f a
and_then (err e) f = err e

module _ (header : ℕ → ℕ) where
  -- The header without the fields that only NES 2.0 has.
  unfoldable pub ines_header : NesVariant → NesHeader
  ines_header variant = record {
    variant = variant;
    mapper_num = bit_or (bit_and (header 6) 0xf0 >>> 4) (bit_and (header 7) 0xf0);
    submapper_num = 0;
    flags = bit_or (bit_and (header 6) 0x0f) (bit_and (header 7) 0x0f <<< 4);
    prg_rom_banks = header 4;
    chr_rom_banks = header 5;
    prg_ram_shift = 0;
    chr_ram_shift = 0;
    tv_mode = 0;
    vs_data = 0;
  }

  unfoldable pub nes2_header : NesHeader
  unfolding ines_header
  nes2_header =
      let h = ines_header NesVariant.nes2 in
      record h {
        mapper_num = bit_or h.mapper_num (bit_and (header 8) 0x0f <<< 8);
        submapper_num = bit_and (header 8) 0xf0 >>> 4;
        prg_rom_banks = bit_or h.prg_rom_banks (bit_and (header 9) 0x0f <<< 8);
        chr_rom_banks = bit_or h.chr_rom_banks (bit_and (header 9) 0xf0 <<< 4);
        prg_ram_shift = header 10;
        chr_ram_shift = header 11;
        tv_mode = header 12;
        vs_data = header 13;
      }

  -- The last test: no trainer.
  unfoldable pub check_trainer : NesHeader → Result NesHeader
  check_trainer h = if has_bits h.flags 0x04 then err (invalid_header 6 (header 6)) else ok h

  unfoldable pub load_nes2 : Result NesHeader
  unfolding nes2_header check_trainer
  load_nes2 =
      if has_bits (header 10) 0x0f || has_bits (header 10) 0xf0
      then err (invalid_header 10 (header 10))
      else if has_bits (header 11) 0x0f || has_bits (header 11) 0xf0
      then err (invalid_header 11 (header 11))
      else if has_bits (header 11) 0xf0
      then err (invalid_header 11 (header 11))
      else if ltb 0 (header 14) || ltb 0 (header 15)
      then err (invalid_header 14 (header 14))
      else check_trainer nes2_header

  -- The loop over the bytes from `i` on that an archaic header leaves at 0.
  unfoldable pub load_archaic : ℕ → ℕ → Result NesHeader
  unfolding ines_header check_trainer
  load_archaic zero i = check_trainer (ines_header NesVariant.archaic_ines)
  load_archaic (suc n) i =
      if ltb 0 (header i) then err (invalid_header i (header i)) else load_archaic n (i + 1)

  unfoldable pub parse : Result NesHeader
  unfolding ines_header load_nes2 load_archaic check_trainer
  parse =
      if not ((header 0 == 0x4e) && (header 1 == 0x45) && (header 2 == 0x53) && (header 3 == 0x1a))
      then err (invalid_header 0 (header 0))
      else if bit_and (header 7) 0x0c == 0x04
      then err (invalid_header 7 (header 7))
      else if bit_and (header 7) 0x0c == 0x0c
      then err (invalid_header 7 (header 7))
      else if bit_and (header 7) 0x0c == 0x08
      then load_nes2
      else if bit_and (header 7) 0x0c == 0x04
      then load_archaic 8 8
      else if (bit_and (header 7) 0x0c == 0)
          && (header 12 == 0)
          && (header 13 == 0)
          && (header 14 == 0)
          && (header 15 == 0)
      then check_trainer (ines_header NesVariant.ines)
      else check_trainer (ines_header NesVariant.ines07)

unfoldable pub load : List ℕ → Result NesHeader
unfolding parse
load rom_data =
    if ltb (length rom_data) 16 then err (invalid_header 0 0) else parse (λ i. get_or rom_data i 0)
