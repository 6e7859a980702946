-- ===== src/Cart/Loading.antt =====
-- `Cart::from_rom` of tetanes-core/src/cart.rs up to the choice of the mapper. The data of a ROM is
-- a list of bytes that can be read to its end; an error reports the position and the lower byte of
-- the number of banks.
use tetanes.Base.{
  take, drop, ℕ, ◌*◌, if◌then◌else◌, ltb, ◌==◌, List, [], length, Option, some, none, u8,
}
use tetanes.Common.{NesRegion, ntsc, pal, dendy}
use tetanes.Mem.Memory.{RamState, ram}
use tetanes.Cart.Header.{
  NesVariant, NesHeader, Error, invalid_header, Result, ok, err, and_then, load,
}
use tetanes.Cart.{Cart, GameInfo, prg_rom_bank_size, chr_rom_bank_size, calculate_ram_size}

-- `read_exact` of `n` bytes, and what is left.
unfoldable pub read_exact : ℕ → Error → List ℕ → Result (List ℕ × List ℕ)
read_exact n e rom_data =
    if ltb (length rom_data) n then err e else ok (take n rom_data, drop n rom_data)

info_region : Option GameInfo → NesRegion
info_region none = ntsc
info_region (some info) = info.region

abbrev tv_region : NesHeader → Option GameInfo → NesRegion
unfolding info_region
tv_region h game_info =
    if h.tv_mode == 1 then pal else if h.tv_mode == 3 then dendy else info_region game_info

abbrev variant_region : NesVariant → NesHeader → Option GameInfo → NesRegion
unfolding info_region
variant_region NesVariant.ines h game_info = tv_region h game_info
variant_region NesVariant.nes2 h game_info = tv_region h game_info
variant_region _ h game_info = info_region game_info

-- The region that the header's TV mode gives, for the formats that have one.
unfoldable pub region_of : NesHeader → Option GameInfo → NesRegion
unfolding info_region
region_of h game_info = variant_region h.variant h game_info

module _ (rng : ℕ → ℕ) (lookup_info : List ℕ → List ℕ → Option GameInfo) where
  -- The CHR-ROM, or CHR-RAM where the header has no bank of it.
  unfoldable pub load_chr : RamState → NesHeader → List ℕ → Result (List ℕ × List ℕ)
  unfolding read_exact
  load_chr state h rom_data =
      if ltb 0 h.chr_rom_banks
      then and_then
          (read_exact (h.chr_rom_banks * chr_rom_bank_size) (invalid_header 5 (u8 h.chr_rom_banks))
            rom_data)
          (λ chr. ok (chr.0, []))
      else and_then (calculate_ram_size h.chr_ram_shift) (λ size. ok ([], ram rng state size))

  unfoldable pub from_rom : RamState → List ℕ → Result Cart
  unfolding read_exact load_chr region_of
  from_rom state rom_data = and_then (load rom_data) (λ h.
      and_then
        (read_exact (h.prg_rom_banks * prg_rom_bank_size) (invalid_header 4 (u8 h.prg_rom_banks))
          (drop 16 rom_data))
        (λ prg. and_then (calculate_ram_size h.prg_ram_shift) (λ prg_ram_size.
          and_then (load_chr state h prg.1) (λ chr.
            let game_info = lookup_info prg.0 chr.0 in
            ok (record {
              header = h;
              region = region_of h game_info;
              ram_state = state;
              chr_rom = chr.0;
              chr_ram = chr.1;
              prg_rom = prg.0;
              prg_ram = ram rng state prg_ram_size;
              ex_ram = [];
              game_info = game_info;
            })))))
