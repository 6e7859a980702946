-- ===== src/Tests/Boards.antt =====
-- Inputs for the theorems of Mapper.Boards.Txrom.Interrupts and Mapper.Boards.Sxrom.Serial.
use tetanes.Base.{ℕ, ◌-◌, ◌+◌, ◌≡◌, refl, arith, true, false, ◌||◌, leb, [], ◌∷◌, replicate}
use mathlib.Core.Option
use tetanes.Cpu.Lines.{IrqSource, has_irq, initial}
use tetanes.Mem.Banks.{Banks, BankAccess}
use tetanes.Mapper.Mirroring.{Mirroring}
use tetanes.Mapper.Boards.Txrom.{Txrom}
use tetanes.Mapper.Boards.Txrom
use tetanes.Mapper.Boards.Txrom.Interrupts.{remaining, rises, left_after, rises-pending}
use tetanes.Mapper.Boards.Sxrom.{Sxrom, update_banks, clock}
use tetanes.Mapper.Boards.Sxrom
use tetanes.Mapper.Boards.Sxrom.Shifting.{stored}
use tetanes.Mapper.Boards.Sxrom.Serial.{sends, digits, sends-stored}

-- A table of two slots over eight pages of 2 ^ shift bytes.
abbrev two_slots : ℕ → ℕ → ℕ → ℕ → Banks
two_slots start end window shift = record {
  start = start;
  end = end;
  size = end - start;
  window = window;
  shift = shift;
  mask = 7;
  banks = replicate 2 0;
  access = replicate 2 BankAccess.read_write;
  page_count = 8;
}

-- An MMC3 whose counter is to be loaded with 2.
abbrev scanline_board : Txrom
scanline_board = record {
  regs = record Txrom.default_regs { irq_latch = 2; irq_enabled = true; irq_reload = true };
  mirroring = Mirroring.vertical;
  mapper_num = 4;
  submapper_num = 0;
  revision = Txrom.Revision.rev_bc;
  chr_banks = two_slots 0x0000 0x1fff 0x1000 12;
  prg_ram_banks = two_slots 0x6000 0x7fff 0x1000 12;
  prg_rom_banks = two_slots 0x8000 0xffff 0x4000 14;
}

rises-pending_example :
    let r =
      rises ((0x0000, 0x1000) ∷ (0x0ff0, 0x1ff0) ∷ (0x0000, 0x1000) ∷ []) scanline_board initial in
    (has_irq IrqSource.mapper r.1
      ≡ (has_irq IrqSource.mapper initial || leb (remaining scanline_board.regs) 3))
    × (remaining r.0.regs
        ≡ left_after (scanline_board.regs.irq_latch + 1) (remaining scanline_board.regs) 3)
rises-pending_example =
    rises-pending ((0x0000, 0x1000) ∷ (0x0ff0, 0x1ff0) ∷ (0x0000, 0x1000) ∷ []) scanline_board
      initial
      (
        (omega arith, omega arith, omega arith),
        ((omega arith, omega arith, omega arith), ((omega arith, omega arith, omega arith), tt)),
      )
      refl refl

abbrev serial_board : Sxrom
serial_board = record {
  regs = record {
    write_just_occurred = 0;
    shift_register = 0x10;
    control = 0x0c;
    chr0 = 0;
    chr1 = 0;
    prg = 0;
  };
  submapper_num = 0;
  mirroring = Mirroring.single_screen_a;
  revision = Sxrom.Revision.rev_bc;
  chr_select = false;
  chr_banks = two_slots 0x0000 0x1fff 0x1000 12;
  prg_ram_banks = two_slots 0x6000 0x7fff 0x1000 12;
  prg_rom_banks = two_slots 0x8000 0xffff 0x4000 14;
}

sends-stored_example :
    sends (λ i. 0xe000 + i) (λ i. 5) (λ i. 0) 5 serial_board
    ≡ Option.map
        (λ s. clock (clock s))
        (update_banks 0xe004
          (record serial_board { regs = stored 0xe004 (digits (λ i. 5)) serial_board.regs }))
sends-stored_example =
    sends-stored (λ i. 0xe000 + i) (λ i. 5) (λ i. 0) serial_board
      (λ i lt. (omega arith, omega arith, omega arith)) refl refl
