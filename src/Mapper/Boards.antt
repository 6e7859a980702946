-- ===== src/Mapper/Boards.antt =====
-- tetanes-core/src/mapper: the boards whose banks are switched by a write to one register, and those
-- of the MMC1 and the MMC3.
pub mod Nrom
pub mod Uxrom
pub mod Cnrom
pub mod Axrom
pub mod Bnrom
pub mod ColorDreams
pub mod Gxrom
pub mod Nina001
pub mod Bf909x
pub mod Nina003006
pub mod Txrom
pub mod Sxrom
