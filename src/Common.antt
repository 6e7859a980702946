-- ===== src/Common.antt =====
-- tetanes-core/src/common.rs: the region and the kind of reset that every component takes.
use tetanes.Base.{Bool, true, false}

pub data NesRegion : Type 0 where
  auto ntsc pal dendy : NesRegion

unfoldable pub is_ntsc : NesRegion → Bool
is_ntsc auto = true
is_ntsc ntsc = true
is_ntsc _ = false

unfoldable pub is_pal : NesRegion → Bool
is_pal pal = true
is_pal _ = false

pub data ResetKind : Type 0 where
  soft hard : ResetKind

-- `kind == ResetKind::Hard`.
abbrev pub is_hard : ResetKind → Bool
is_hard soft = false
is_hard hard = true
