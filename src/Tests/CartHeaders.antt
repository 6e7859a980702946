-- ===== src/Tests/CartHeaders.antt =====
-- Inputs for the theorems of Cart.Headers.
use tetanes.Base.{◌≡◌, refl, arith, [], ◌∷◌, ◌++◌, false}
use tetanes.Cart.Header.{NesHeader, NesVariant, ok, load}
use tetanes.Cart.Headers.{IsNes2, to_bytes, load-to_bytes, load-variant, is_archaic}

-- A board of the number 256 with 513 banks of 16K and 256 of 8K.
abbrev pub large_header : NesHeader
large_header = record {
  variant = NesVariant.nes2;
  mapper_num = 256;
  submapper_num = 3;
  flags = 0x81;
  prg_rom_banks = 513;
  chr_rom_banks = 256;
  prg_ram_shift = 7;
  chr_ram_shift = 0;
  tv_mode = 1;
  vs_data = 0;
}

large_header-IsNes2 : IsNes2 large_header
large_header-IsNes2 = record {
  variant_eq = refl;
  mapper_lt = omega arith;
  submapper_lt = omega arith;
  flags_eq = refl;
  no_trainer = refl;
  prg_rom_lt = omega arith;
  chr_rom_lt = omega arith;
  prg_ram_sizes = (omega arith, omega arith);
  chr_ram_sizes = (omega arith, omega arith);
}

load-to_bytes_example : load (to_bytes large_header ++ (7 ∷ [])) ≡ ok large_header
load-to_bytes_example = load-to_bytes large_header (7 ∷ []) large_header-IsNes2

large_header_loads : load (to_bytes large_header) ≡ ok large_header
unfolding load
large_header_loads = refl

load-variant_example : is_archaic large_header.variant ≡ false
load-variant_example = load-variant (to_bytes large_header) large_header large_header_loads
