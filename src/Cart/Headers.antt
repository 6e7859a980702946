-- ===== src/Cart/Headers.antt =====
-- The header of a file read back, and the formats that the parser accepts.
use tetanes.Base.{
  if-each, ℕ, ◌+◌, ◌*◌, ◌/◌, ◌%◌, ◌<◌, ◌≡◌, refl, sym, ◌∙◌, ap, arith, Bool, true, false, ◌&&◌,
  ◌||◌, not, List, [], ◌∷◌, ◌++◌, bit_and, bit_or, ltb, ◌==◌, length, get_or, Bool-cases, inl, inr,
  has_bits,
}
use tetanes.Base.Bits.{bit_and_mask, bit_and_field, bit_and_bit, bit_or_fields_right}
use tetanes.Cart.Header.{
  NesVariant, NesHeader, Result, ok, err, ines_header, nes2_header, check_trainer, load_nes2, parse,
  load,
}

low_nibble : (n : ℕ) → bit_and n 0x0f ≡ n % 16
low_nibble n = bit_and_mask 4 n

high_nibble : (n : ℕ) → bit_and n 0xf0 ≡ n / 16 % 16 * 16
high_nibble n = omega (arith, bit_and_field 4 n 15, bit_and_mask 4 (n / 16))

-- The fields of an NES 2.0 header by arithmetic: its numbers take their lower parts from bytes 4
-- to 7 and their upper parts from bytes 8 and 9.
pub nes2_header-fields :
    (b : ℕ → ℕ)
    → b 4 < 256
    → b 5 < 256
    → b 6 < 256
    → b 7 < 256
    → b 8 < 256
    → b 9 < 256
    → nes2_header b ≡ record {
      variant = NesVariant.nes2;
      mapper_num = b 8 % 16 * 256 + b 7 / 16 * 16 + b 6 / 16;
      submapper_num = b 8 / 16;
      flags = b 7 % 16 * 16 + b 6 % 16;
      prg_rom_banks = b 9 % 16 * 256 + b 4;
      chr_rom_banks = b 9 / 16 * 256 + b 5;
      prg_ram_shift = b 10;
      chr_ram_shift = b 11;
      tv_mode = b 12;
      vs_data = b 13;
    }
unfolding nes2_header ines_header
nes2_header-fields b h4 h5 h6 h7 h8 h9 =
    let m6 : bit_and (b 6) 0xf0 / 16 ≡ b 6 / 16 = omega (arith, high_nibble (b 6)) in
    let m7 : bit_and (b 7) 0xf0 ≡ b 7 / 16 * 16 = omega (arith, high_nibble (b 7)) in
    let m8 = low_nibble (b 8) in
    let s8 : bit_and (b 8) 0xf0 / 16 ≡ b 8 / 16 = omega (arith, high_nibble (b 8)) in
    let c9 : bit_and (b 9) 0xf0 * 16 ≡ b 9 / 16 * 256 = omega (arith, high_nibble (b 9)) in
    let low = bit_or_fields_right 4 (b 7 / 16) (b 6 / 16) (omega arith) in
    let all = bit_or_fields_right 8 (b 8 % 16) (b 7 / 16 * 16 + b 6 / 16) (omega arith) in
    let flags = bit_or_fields_right 4 (b 7 % 16) (b 6 % 16) (omega arith) in
    let prg = bit_or_fields_right 8 (b 9 % 16) (b 4) h4 in
    let chr = bit_or_fields_right 8 (b 9 / 16) (b 5) h5 in
    let number : bit_or (bit_or (bit_and (b 6) 0xf0 / 16) (bit_and (b 7) 0xf0))
          (bit_and (b 8) 0x0f * 256)
        ≡ b 8 % 16 * 256 + b 7 / 16 * 16 + b 6 / 16 =
      rw (m6, m7, m8, low, all) (omega arith) in
    let flag_byte : bit_or (bit_and (b 6) 0x0f) (bit_and (b 7) 0x0f * 16)
        ≡ b 7 % 16 * 16 + b 6 % 16 =
      rw (low_nibble (b 6), low_nibble (b 7)) flags in
    let prg_count : bit_or (b 4) (bit_and (b 9) 0x0f * 256) ≡ b 9 % 16 * 256 + b 4 =
      rw (low_nibble (b 9)) prg in
    let chr_count : bit_or (b 5) (bit_and (b 9) 0xf0 * 16) ≡ b 9 / 16 * 256 + b 5 = rw c9 chr in
    λ i. record {
      variant = NesVariant.nes2;
      mapper_num = number i;
      submapper_num = s8 i;
      flags = flag_byte i;
      prg_rom_banks = prg_count i;
      chr_rom_banks = chr_count i;
      prg_ram_shift = b 10;
      chr_ram_shift = b 11;
      tv_mode = b 12;
      vs_data = b 13;
    }

-- A header that the NES 2.0 format can hold and the emulator accepts.
pub record IsNes2 (h : NesHeader) : Type 0 where
  pub variant_eq : h.variant ≡ NesVariant.nes2
  pub mapper_lt : h.mapper_num < 4096
  pub submapper_lt : h.submapper_num < 16
  pub flags_eq : h.flags / 64 ≡ 2
  pub no_trainer : h.flags / 4 % 2 ≡ 0
  pub prg_rom_lt : h.prg_rom_banks < 4096
  pub chr_rom_lt : h.chr_rom_banks < 4096
  pub prg_ram_sizes : (h.prg_ram_shift % 16 < 15) × (h.prg_ram_shift / 16 < 15)
  pub chr_ram_sizes : (h.chr_ram_shift % 16 < 15) × (h.chr_ram_shift / 16 < 15)

-- The bytes of a header in the NES 2.0 format.
abbrev pub to_bytes : NesHeader → List ℕ
to_bytes h =
    0x4e
    ∷ 0x45
    ∷ 0x53
    ∷ 0x1a
    ∷ h.prg_rom_banks % 256
    ∷ h.chr_rom_banks % 256
    ∷ (h.mapper_num % 16 * 16 + h.flags % 16)
    ∷ (h.mapper_num / 16 % 16 * 16 + h.flags / 16)
    ∷ (h.submapper_num * 16 + h.mapper_num / 256)
    ∷ (h.chr_rom_banks / 256 * 16 + h.prg_rom_banks / 256)
    ∷ h.prg_ram_shift
    ∷ h.chr_ram_shift
    ∷ h.tv_mode
    ∷ h.vs_data
    ∷ 0
    ∷ 0
    ∷ []

no_full_nibble : (n : ℕ) → n % 16 < 15 → n / 16 < 15 → (has_bits n 0x0f || has_bits n 0xf0) ≡ false
no_full_nibble n hl hh = ground (arith, low_nibble n, high_nibble n)

-- The tests of the header on the bytes of a NES 2.0 header.
load_nes2-ok :
    (b : ℕ → ℕ)
    → (b 10 % 16 < 15) × (b 10 / 16 < 15)
    → (b 11 % 16 < 15) × (b 11 / 16 < 15)
    → b 14 ≡ 0
    → b 15 ≡ 0
    → load_nes2 b ≡ check_trainer b (nes2_header b)
unfolding load_nes2
load_nes2-ok b h10 h11 h14 h15 =
    let high : has_bits (b 11) 0xf0 ≡ false = ground (arith, high_nibble (b 11)) in
    rw (no_full_nibble (b 10) h10.0 h10.1, no_full_nibble (b 11) h11.0 h11.1, high, h14, h15) refl

format_bits : (n : ℕ) → bit_and n 0x0c ≡ n / 4 % 4 * 4
format_bits n = omega (arith, bit_and_field 2 n 3, bit_and_mask 2 (n / 4))

parse-nes2 :
    (b : ℕ → ℕ)
    → b 0 ≡ 0x4e
    → b 1 ≡ 0x45
    → b 2 ≡ 0x53
    → b 3 ≡ 0x1a
    → b 7 / 4 % 4 ≡ 2
    → parse b ≡ load_nes2 b
unfolding parse
parse-nes2 b h0 h1 h2 h3 h7 =
    let format : bit_and (b 7) 0x0c ≡ 8 = omega (arith, format_bits (b 7)) in
    rw (h0, h1, h2, h3, format) refl

check_trainer-ok : (b : ℕ → ℕ) (h : NesHeader) → h.flags / 4 % 2 ≡ 0 → check_trainer b h ≡ ok h
unfolding check_trainer
check_trainer-ok b h none =
    let bit = bit_and_bit 2 h.flags in
    let clear : has_bits h.flags 0x04 ≡ false = ground arith in rw clear refl

-- A header in NES 2.0 without a trainer, with its numbers in the range of the format and no RAM
-- shift of 15, survives being written in the format and loaded, whatever follows it.
pub load-to_bytes : (h : NesHeader) (rest : List ℕ) → IsNes2 h → load (to_bytes h ++ rest) ≡ ok h
unfolding load
load-to_bytes h rest v =
    let b : ℕ → ℕ = λ i. get_or (to_bytes h ++ rest) i 0 in
    let long : ltb (length (to_bytes h ++ rest)) 16 ≡ false = ground arith in
    let format : (h.mapper_num / 16 % 16 * 16 + h.flags / 16) / 4 % 4 ≡ 2 =
      omega (arith, v.flags_eq) in
    let fields =
      nes2_header-fields b (omega arith) (omega arith) (omega (arith)) (omega (arith, v.flags_eq))
        (omega (arith, v.submapper_lt, v.mapper_lt)) (omega (arith, v.chr_rom_lt, v.prg_rom_lt)) in
    let number : (h.submapper_num * 16 + h.mapper_num / 256) % 16 * 256
          + (h.mapper_num / 16 % 16 * 16 + h.flags / 16) / 16 * 16
          + (h.mapper_num % 16 * 16 + h.flags % 16) / 16
        ≡ h.mapper_num =
      omega (arith, v.flags_eq, v.mapper_lt) in
    let submapper : (h.submapper_num * 16 + h.mapper_num / 256) / 16 ≡ h.submapper_num =
      omega (arith, v.mapper_lt) in
    let flags : (h.mapper_num / 16 % 16 * 16 + h.flags / 16) % 16 * 16
          + (h.mapper_num % 16 * 16 + h.flags % 16) % 16
        ≡ h.flags =
      omega (arith, v.flags_eq) in
    let prg : (h.chr_rom_banks / 256 * 16 + h.prg_rom_banks / 256) % 16 * 256
          + h.prg_rom_banks % 256
        ≡ h.prg_rom_banks =
      omega (arith, v.prg_rom_lt) in
    let chr : (h.chr_rom_banks / 256 * 16 + h.prg_rom_banks / 256) / 16 * 256
          + h.chr_rom_banks % 256
        ≡ h.chr_rom_banks =
      omega (arith, v.prg_rom_lt) in
    let read : nes2_header b ≡ h = fields ∙ (λ i. record h {
      variant = sym v.variant_eq i;
      mapper_num = number i;
      submapper_num = submapper i;
      flags = flags i;
      prg_rom_banks = prg i;
      chr_rom_banks = chr i;
    }) in
    rw long (
      parse-nes2 b refl refl refl refl format
      ∙ load_nes2-ok b v.prg_ram_sizes v.chr_ram_sizes refl refl
      ∙ ap (check_trainer b) read
      ∙ check_trainer-ok b h v.no_trainer)

abbrev pub is_archaic : NesVariant → Bool
is_archaic NesVariant.archaic_ines = true
is_archaic _ = false

-- What is loaded, if anything, is not of the archaic format.
abbrev IsModern : Result NesHeader → Type 0
IsModern (ok h) = is_archaic h.variant ≡ false
IsModern (err e) = Unit

check_trainer-IsModern :
    (b : ℕ → ℕ) (h : NesHeader) → is_archaic h.variant ≡ false → IsModern (check_trainer b h)
unfolding check_trainer
check_trainer-IsModern b h modern = if-each IsModern (has_bits h.flags 0x04) tt modern

load_nes2-IsModern : (b : ℕ → ℕ) → IsModern (load_nes2 b)
unfolding load_nes2
load_nes2-IsModern b = if-each IsModern (has_bits (b 10) 0x0f || has_bits (b 10) 0xf0) tt (
    if-each IsModern (has_bits (b 11) 0x0f || has_bits (b 11) 0xf0) tt (
      if-each IsModern (has_bits (b 11) 0xf0) tt (
        if-each IsModern (ltb 0 (b 14) || ltb 0 (b 15)) tt
          (check_trainer-IsModern b (nes2_header b) refl))))

parse-IsModern : (b : ℕ → ℕ) → IsModern (parse b)
unfolding parse
parse-IsModern b = elim (Bool-cases (bit_and (b 7) 0x0c == 0x04)) [
  | inl e ↦
      if-each IsModern (not ((b 0 == 0x4e) && (b 1 == 0x45) && (b 2 == 0x53) && (b 3 == 0x1a))) tt
        (rw e tt)
  | inr e ↦
      if-each IsModern (not ((b 0 == 0x4e) && (b 1 == 0x45) && (b 2 == 0x53) && (b 3 == 0x1a))) tt (
        rw e (
          if-each IsModern (bit_and (b 7) 0x0c == 0x0c) tt (
            if-each IsModern (bit_and (b 7) 0x0c == 0x08) (load_nes2-IsModern b) (
              if-each IsModern
                ((bit_and (b 7) 0x0c == 0)
                  && (b 12 == 0)
                  && (b 13 == 0)
                  && (b 14 == 0)
                  && (b 15 == 0))
                (check_trainer-IsModern b (ines_header b NesVariant.ines) refl)
                (check_trainer-IsModern b (ines_header b NesVariant.ines07) refl)))))
]

load-IsModern : (rom_data : List ℕ) → IsModern (load rom_data)
unfolding load
load-IsModern rom_data =
    if-each IsModern (ltb (length rom_data) 16) tt (parse-IsModern (λ i. get_or rom_data i 0))

-- No file loads as an archaic header, although the code has a branch for them: their bits of byte
-- 7 are taken for the trace of DiskDude! before.
pub load-variant :
    (rom_data : List ℕ) (h : NesHeader) → load rom_data ≡ ok h → is_archaic h.variant ≡ false
load-variant rom_data h e = rw e at (load-IsModern rom_data)
