-- ===== src/Tests.antt =====
-- Concrete inputs at which the theorems apply, one child for each module of theorems.
mod Machine
mod Console
mod MapperBoardsUxromRefinement
mod BusSubroutines
mod PpuBusVram
mod BusWorkRam
mod CartHeaders
mod GenieLetters
mod PpuBusMirrors
mod InputShifting
mod InputDirections
mod Picture
mod PpuAccessRace
mod PpuAccessFilling
mod PpuEvaluationBounds
mod PpuClock
mod PpuPixelsPriority
mod Sound
mod Boards
mod CpuFlowHandlers
mod CpuAluLaws
mod CpuAccessRegisters
mod CpuAccessInterrupts
mod MemBanksLaws
mod MemBanksInitial
mod ApuTimerStepping
mod ApuDmcPlayback
mod PpuScrollMoves
mod PpuScrollWrites
mod CpuAddressingPages
mod ApuPulseSweeping
mod ApuNoiseRegister
mod ApuLengthCounterLaws
