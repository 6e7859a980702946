-- ===== src/Cpu/Lines.antt =====
-- tetanes-core/src/cpu.rs: the thread-local interrupt and DMA lines through which the PPU, the APU
-- and the mappers reach the CPU. A component that raises a line takes the lines and returns them.
use tetanes.Base.{ℕ, Bool, true, false, Option, none, some, ◌||◌, ◌≡◌, refl}

-- `bitflags! struct Irq`, a field for each flag.
pub record Irq : Type 0 where
  pub mapper : Bool
  pub frame_counter : Bool
  pub dmc : Bool

-- `bitflags! struct Dma`.
pub record Dma : Type 0 where
  pub oam : Bool
  pub dmc : Bool

pub data IrqSource : Type 0 where
  mapper frame_counter dmc : IrqSource

pub data DmaSource : Type 0 where
  oam dmc : DmaSource

-- NMI, IRQS, DMAS, DMA_HALT, DMA_DUMMY_READ and DMA_OAM_ADDR.
pub record Lines : Type 0 where
  pub nmi : Bool
  pub irqs : Irq
  pub dmas : Dma
  pub dma_halt : Bool
  pub dma_dummy_read : Bool
  pub dma_oam_addr : ℕ

-- Their values when the thread starts.
unfoldable pub initial : Lines
initial = record {
  nmi = false;
  irqs = record { mapper = false; frame_counter = false; dmc = false };
  dmas = record { oam = false; dmc = false };
  dma_halt = false;
  dma_dummy_read = false;
  dma_oam_addr = 0;
}

abbrev pub nmi_pending : Lines → Bool
nmi_pending l = l.nmi

unfoldable pub set_nmi : Lines → Lines
set_nmi l = record l { nmi = true }

unfoldable pub clear_nmi : Lines → Lines
clear_nmi l = record l { nmi = false }

assign_irq : IrqSource → Bool → Irq → Irq
assign_irq IrqSource.mapper b i = record i { mapper = b }
assign_irq IrqSource.frame_counter b i = record i { frame_counter = b }
assign_irq IrqSource.dmc b i = record i { dmc = b }

unfoldable pub has_irq : IrqSource → Lines → Bool
has_irq IrqSource.mapper l = l.irqs.mapper
has_irq IrqSource.frame_counter l = l.irqs.frame_counter
has_irq IrqSource.dmc l = l.irqs.dmc

unfoldable pub set_irq : IrqSource → Lines → Lines
unfolding assign_irq
set_irq s l = record l { irqs = assign_irq s true l.irqs }

unfoldable pub clear_irq : IrqSource → Lines → Lines
unfolding assign_irq
clear_irq s l = record l { irqs = assign_irq s false l.irqs }

-- `!irqs.is_empty()`.
abbrev pub any_irq : Lines → Bool
any_irq l = l.irqs.mapper || (l.irqs.frame_counter || l.irqs.dmc)

unfoldable pub start_dmc_dma : Lines → Lines
start_dmc_dma l = record l {
  dmas = record (l.dmas) { dmc = true };
  dma_halt = true;
  dma_dummy_read = true;
}

unfoldable pub start_oam_dma : ℕ → Lines → Lines
start_oam_dma addr l = record l {
  dmas = record (l.dmas) { oam = true };
  dma_halt = true;
  dma_oam_addr = addr;
}

running : Bool → Bool → Option (Bool × Bool)
running false false = none
running d o = some (d, o)

-- `(dmc, oam)` if any transfer runs.
unfoldable pub dmas_running : Lines → Option (Bool × Bool)
unfolding running
dmas_running l = running l.dmas.dmc l.dmas.oam

pub dmas_running-oam :
    (l : Lines) → l.dmas.dmc ≡ false → l.dmas.oam ≡ true → dmas_running l ≡ some (false, true)
unfolding dmas_running running
dmas_running-oam l hd ho = rw (hd, ho) refl

pub dmas_running-none :
    (l : Lines) → l.dmas.dmc ≡ false → l.dmas.oam ≡ false → dmas_running l ≡ none
unfolding dmas_running running
dmas_running-none l hd ho = rw (hd, ho) refl

unfoldable pub clear_dma : DmaSource → Lines → Lines
clear_dma DmaSource.oam l = record l { dmas = record (l.dmas) { oam = false } }
clear_dma DmaSource.dmc l = record l { dmas = record (l.dmas) { dmc = false } }

unfoldable pub clear_dma_halt : Lines → Lines
clear_dma_halt l = record l { dma_halt = false }

unfoldable pub clear_dma_dummy_read : Lines → Lines
clear_dma_dummy_read l = record l { dma_dummy_read = false }
