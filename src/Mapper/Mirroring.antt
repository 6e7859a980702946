-- ===== src/Mapper/Mirroring.antt =====
-- `Mirroring` of tetanes-core/src/ppu.rs.
use tetanes.Base.{ℕ}

pub data Mirroring : Type 0 where
  vertical horizontal single_screen_a single_screen_b four_screen : Mirroring

-- `mirroring as u16`.
abbrev pub discriminant : Mirroring → ℕ
discriminant vertical = 0
discriminant horizontal = 1
discriminant single_screen_a = 2
discriminant single_screen_b = 3
discriminant four_screen = 4
