-- ===== src/Mapper/Boards/Sxrom/Serial.antt =====
-- The serial port of an MMC1: how five writes load one of its registers.
use tetanes.Base.{
  ℕ, zero, suc, ◌+◌, ◌*◌, ◌/◌, ◌%◌, ◌<◌, ◌≤◌, ◌≡◌, refl, ◌∙◌, ap, arith, Option, none, some,
}
use mathlib.Core.Option
use tetanes.Mem.Banks.{Banks}
use tetanes.Mapper.{MappedWrite}
use tetanes.Mapper.Boards.Sxrom.{
  Regs, Sxrom, mirroring_of, update_chr_banks, update_prg_banks, update_banks, write_register,
  map_write, clock,
}
use tetanes.Mapper.Boards.Sxrom.Shifting.{
  stored, map_write-register, write_register-ignored, write_register-shifts, write_register-full,
}

-- A read-modify-write instruction writes twice, in a cycle each.
abbrev pub send : ℕ → ℕ → ℕ → Sxrom → Option Sxrom
send addr val again m =
    Option.bind (map_write addr val m)
      (λ r. Option.map (λ s. clock s.1) (map_write addr again (clock r.1)))

abbrev pub sends : (at val again : ℕ → ℕ) → ℕ → Sxrom → Option Sxrom
sends at val again zero m = some m
sends at val again (suc n) m = Option.bind (sends at val again n m) (send (at n) (val n) (again n))

abbrev with_shift : ℕ → Sxrom → Sxrom
with_shift x m = record m { regs = record m.regs { write_just_occurred = 0; shift_register = x } }

-- The number whose binary digits, from the lowest on, are those written.
abbrev pub digits : (ℕ → ℕ) → ℕ
digits val = val 0 % 2 + val 1 % 2 * 2 + val 2 % 2 * 4 + val 3 % 2 * 8 + val 4 % 2 * 16

send-shifts :
    (addr val again : ℕ) (m : Sxrom)
    → 0x8000 ≤ addr
    → addr ≤ 0xffff
    → m.regs.write_just_occurred ≡ 0
    → m.regs.shift_register < 32
    → m.regs.shift_register % 2 ≡ 0
    → val < 0x80
    → send addr val again m ≡ some (with_shift (m.regs.shift_register / 2 + val % 2 * 16) m)
unfolding clock Option.bind
send-shifts addr val again m lo hi free small even lt =
    let x = m.regs.shift_register / 2 + val % 2 * 16 in
    let m1 : Sxrom = record m {
      regs = record m.regs { write_just_occurred = 1; shift_register = x };
    } in
    rw
      (
        map_write-register addr val m lo hi,
        write_register-shifts addr val m free small even lt,
        map_write-register addr again m1 lo hi,
        write_register-ignored addr again m1 (omega arith),
      )
      refl

updated-ignored :
    (chr prg : Option Banks) (again addr : ℕ) (k : Banks → Banks → Sxrom)
    → 0x8000 ≤ addr
    → addr ≤ 0xffff
    → ((a b : Banks) → (k a b).regs.write_just_occurred ≡ 2)
    → Option.bind
        (Option.bind chr (λ a. Option.map (k a) prg))
        (λ m. Option.map (λ s. clock s.1) (map_write addr again (clock m)))
      ≡ Option.map (λ m. clock (clock m)) (Option.bind chr (λ a. Option.map (k a) prg))
unfolding Option.bind clock
updated-ignored none prg again addr k lo hi two = refl
updated-ignored (some a) none again addr k lo hi two = refl
updated-ignored (some a) (some b) again addr k lo hi two =
    let m1 = clock (k a b) in
    let t = two a b in
    rw (map_write-register addr again m1 lo hi, write_register-ignored addr again m1 (omega arith))
      refl

-- A write whose bits are in range shifts one of them in.
abbrev pub IsBit : ℕ → ℕ → Type 0
IsBit addr val = (0x8000 ≤ addr) × (addr ≤ 0xffff) × (val < 0x80)

send-to :
    (addr val again x : ℕ) (m : Sxrom)
    → IsBit addr val
    → m.regs.write_just_occurred ≡ 0
    → m.regs.shift_register < 32
    → m.regs.shift_register % 2 ≡ 0
    → m.regs.shift_register / 2 + val % 2 * 16 ≡ x
    → send addr val again m ≡ some (with_shift x m)
send-to addr val again x m (lo, hi, lt) free small even e =
    send-shifts addr val again m lo hi free small even lt ∙ ap (λ y. some (with_shift y m)) e

stored-write : (addr x : ℕ) (r : Regs) → (stored addr x r).write_just_occurred ≡ 2
stored-write addr x r = ground arith

bind-written :
    (o : Option Sxrom) (g : Sxrom → Option Sxrom)
    → Option.bind
        (Option.map {B = MappedWrite × Sxrom} (λ m. (MappedWrite.bus_write, m)) o)
        (λ r. g r.1)
      ≡ Option.bind o g
unfolding Option.bind
bind-written none g = refl
bind-written (some m) g = refl

send-full :
    (addr val again x : ℕ) (m : Sxrom)
    → IsBit addr val
    → m.regs.write_just_occurred ≡ 0
    → m.regs.shift_register < 32
    → m.regs.shift_register % 2 ≡ 1
    → m.regs.shift_register / 2 + val % 2 * 16 ≡ x
    → send addr val again m
      ≡ Option.map
          (λ s. clock (clock s))
          (update_banks addr (record m { regs = stored addr x m.regs }))
unfolding update_banks
send-full addr val again x m (lo, hi, lt) free small odd e =
    let m1 : Sxrom = record m { regs = stored addr x m.regs } in
    let updated : write_register addr val m ≡ update_banks addr m1 =
      write_register-full addr val m free small odd lt
      ∙ ap (λ y. update_banks addr (record m { regs = stored addr y m.regs })) e in
    let rest : Sxrom → Option Sxrom =
      λ m2. Option.map (λ s. clock s.1) (map_write addr again (clock m2)) in
    ap (λ o. Option.bind o (λ r. rest r.1))
      (map_write-register addr val m lo hi
        ∙ ap (Option.map {B = MappedWrite × Sxrom} (λ m2. (MappedWrite.bus_write, m2))) updated)
    ∙ bind-written (update_banks addr m1) rest
    ∙ updated-ignored (update_chr_banks m1.regs m1.chr_banks) (update_prg_banks addr m1) again addr
        (λ chr_banks prg_rom_banks. record m1 {
          mirroring = mirroring_of m1.regs.control;
          chr_banks = chr_banks;
          prg_rom_banks = prg_rom_banks;
        })
        lo hi (λ a b. stored-write addr x m.regs)

four_sends :
    (at val again : ℕ → ℕ) (m : Sxrom)
    → ((i : ℕ) → i < 5 → IsBit (at i) (val i))
    → m.regs.write_just_occurred ≡ 0
    → m.regs.shift_register ≡ 0x10
    → sends at val again 4 m
      ≡ some (with_shift (1 + val 0 % 2 * 2 + val 1 % 2 * 4 + val 2 % 2 * 8 + val 3 % 2 * 16) m)
unfolding Option.bind
four_sends at val again m bits free empty =
    let x1 = 8 + val 0 % 2 * 16 in
    let x2 = 4 + val 0 % 2 * 8 + val 1 % 2 * 16 in
    let x3 = 2 + val 0 % 2 * 4 + val 1 % 2 * 8 + val 2 % 2 * 16 in
    let x4 = 1 + val 0 % 2 * 2 + val 1 % 2 * 4 + val 2 % 2 * 8 + val 3 % 2 * 16 in
    rw
      (
        send-to (at 0) (val 0) (again 0) x1 m (bits 0 (omega arith)) free (omega arith)
            (omega arith) (omega arith),
        send-to (at 1) (val 1) (again 1) x2 (with_shift x1 m) (bits 1 (omega arith)) refl
            (omega arith) (omega arith) (omega arith),
        send-to (at 2) (val 2) (again 2) x3 (with_shift x2 m) (bits 2 (omega arith)) refl
            (omega arith) (omega arith) (omega arith),
        send-to (at 3) (val 3) (again 3) x4 (with_shift x3 m) (bits 3 (omega arith)) refl
            (omega arith) (omega arith) (omega arith),
      )
      refl

-- Five writes to the ROM with bit 7 clear, from the start of a round of the shift register, load
-- the register that the address of the last selects with the number whose binary digits, from the
-- lowest on, are the lowest bits written, and the banks follow; the second write of an instruction
-- that writes in two cycles on end is ignored.
pub sends-stored :
    (at val again : ℕ → ℕ) (m : Sxrom)
    → ((i : ℕ) → i < 5 → IsBit (at i) (val i))
    → m.regs.write_just_occurred ≡ 0
    → m.regs.shift_register ≡ 0x10
    → sends at val again 5 m
      ≡ Option.map
          (λ s. clock (clock s))
          (update_banks (at 4) (record m { regs = stored (at 4) (digits val) m.regs }))
unfolding Option.bind
sends-stored at val again m bits free empty =
    let x4 = 1 + val 0 % 2 * 2 + val 1 % 2 * 4 + val 2 % 2 * 8 + val 3 % 2 * 16 in
    rw (four_sends at val again m bits free empty) (
      send-full (at 4) (val 4) (again 4) (digits val) (with_shift x4 m) (bits 4 (omega arith)) refl
        (omega arith) (omega arith) (omega arith))
