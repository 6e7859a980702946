-- ===== src/Bus.antt =====
-- tetanes-core/src/bus.rs: the memory map of the CPU. The PPU with the cartridge's board, the APU
-- and the controllers are parameters: `Parts` has what the bus calls of them, and `PpuWrite` and
-- `ApuWrite` name the methods that a register's address selects.
pub mod Reads
pub mod Writes
pub mod Access
pub mod WorkRam
pub mod Subroutines
use tetanes.Base.{
  ℕ, ◌+◌, ◌*◌, Bool, true, false, not, ◌&&◌, ◌||◌, if◌then◌else◌, leb, ◌==◌, List, [], ◌∷◌, length,
  get_or, set, Option, none, some, bit_and, ◌<<<◌, ◌≡◌, length-set, ◌∙◌,
}
use tetanes.Common.{NesRegion, ResetKind}
use tetanes.Mem.Memory.{RamState, ram}
use tetanes.Cpu.Lines.{Lines, start_oam_dma}
use tetanes.Cpu.State.{BusOps}
use tetanes.Mapper.{MappedRead, MappedWrite, within}
use tetanes.Genie.{GenieCode}
use tetanes.Genie

pub data Player : Type 0 where
  one two three four : Player

pub data Channel : Type 0 where
  pulse1 pulse2 triangle noise dmc mapper : Channel

pub data PpuRead : Type 0 where
  read_status read_oamdata read_data : PpuRead

pub data PpuWrite : Type 0 where
  write_ctrl write_mask write_oamaddr write_oamdata write_scroll write_addr write_data : PpuWrite

pub data ApuWrite : Type 0 where
  write_ctrl write_sweep write_timer_lo write_timer_hi write_length : Channel → ApuWrite
  write_linear_counter write_dmc_output write_dmc_addr write_status write_frame_counter : ApuWrite

pub record Parts (P A I : Type 0) : Type 0 where
  pub ppu_read : PpuRead → P → Lines → ℕ × P × Lines
  pub ppu_peek : PpuRead → P → ℕ
  pub ppu_write : PpuWrite → ℕ → P → Lines → P × Lines
  pub ppu_open_bus : P → ℕ
  pub set_ppu_open_bus : ℕ → P → P
  pub ppu_clock_to : ℕ → P → Lines → P × Lines
  pub ppu_set_region : NesRegion → P → P
  pub ppu_reset : ResetKind → P → Lines → P × Lines
  pub map_read : ℕ → P → MappedRead × P
  pub map_peek : ℕ → P → MappedRead
  pub map_write : ℕ → ℕ → P → Lines → MappedWrite × P × Lines
  pub cpu_bus_read : ℕ → P → Lines → P × Lines
  pub cpu_bus_write : ℕ → ℕ → P → Lines → P × Lines
  pub clock_mapper : P → Lines → P × Lines
  pub apu_read_status : A → Lines → ℕ × A × Lines
  pub apu_peek_status : A → ℕ
  pub apu_write : ApuWrite → ℕ → A → Lines → A × Lines
  pub clock_lazy : A → Lines → A × Lines
  pub add_mapper_output : P → A → A
  pub apu_set_region : NesRegion → A → A
  pub apu_reset : ResetKind → A → Lines → A × Lines
  pub dma_addr : A → ℕ
  pub load_buffer : ℕ → A → Lines → A × Lines
  pub input_read : Player → P → I → ℕ × I
  pub input_peek : Player → P → I → ℕ
  pub input_write : ℕ → I → I
  pub input_clock : I → I
  pub input_set_region : NesRegion → I → I

-- A memory whose size never changes.
pub record Sized (n : ℕ) : Type 0 where
  pub bytes : List ℕ
  pub size_eq : length bytes ≡ n

abbrev pub wram_size : ℕ
wram_size = 0x0800

abbrev pub set_byte : {n : ℕ} → Sized n → ℕ → ℕ → Sized n
set_byte m addr val = record {
  bytes = set m.bytes addr val;
  size_eq = length-set m.bytes addr val ∙ m.size_eq;
}

pub record Bus (P A I : Type 0) : Type 0 where
  pub apu : A
  pub genie_codes : List GenieCode
  pub input : I
  pub open_bus : ℕ
  pub ppu : P
  pub prg_ram_protect : Bool
  pub prg_ram : List ℕ
  pub prg_rom : List ℕ
  pub ram_state : RamState
  pub region : NesRegion
  pub wram : Sized wram_size

-- The map of codes, by address: a new code takes the place of an old one.
unfoldable pub without_addr : ℕ → List GenieCode → List GenieCode
without_addr addr [] = []
without_addr addr (gc ∷ gcs) =
    let rest = without_addr addr gcs in if gc.addr == addr then rest else gc ∷ rest

same_code : List ℕ → List ℕ → Bool
same_code [] [] = true
same_code (x ∷ xs) (y ∷ ys) = let rest = same_code xs ys in (x == y) && rest
same_code _ _ = false

unfoldable pub without_code : List ℕ → List GenieCode → List GenieCode
unfolding same_code
without_code code [] = []
without_code code (gc ∷ gcs) =
    let rest = without_code code gcs in if same_code gc.code code then rest else gc ∷ rest

unfoldable pub find_code : ℕ → List GenieCode → Option GenieCode
find_code addr [] = none
find_code addr (gc ∷ gcs) =
    let rest = find_code addr gcs in if gc.addr == addr then some gc else rest

abbrev replaced : Option GenieCode → ℕ → ℕ
replaced none val = val
replaced (some gc) val = Genie.read gc val

module _ {P A I : Type 0} where
  unfoldable pub add_genie_code : GenieCode → Bus P A I → Bus P A I
  unfolding without_addr
  add_genie_code gc b = record b { genie_codes = gc ∷ without_addr gc.addr b.genie_codes }

  unfoldable pub remove_genie_code : List ℕ → Bus P A I → Bus P A I
  unfolding without_code
  remove_genie_code code b = record b { genie_codes = without_code code b.genie_codes }

  unfoldable pub clear_genie_codes : Bus P A I → Bus P A I
  clear_genie_codes b = record b { genie_codes = [] }

  unfoldable pub genie_read : ℕ → ℕ → Bus P A I → ℕ
  unfolding find_code
  genie_read addr val b = replaced (find_code addr b.genie_codes) val

  unfoldable pub load_sram : List ℕ → Bus P A I → Bus P A I
  load_sram sram b = record b { prg_ram = sram }
