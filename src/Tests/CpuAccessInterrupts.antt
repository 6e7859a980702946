-- ===== src/Tests/CpuAccessInterrupts.antt =====
-- Inputs for the theorems of Cpu.Access.Interrupts.
use tetanes.Base.{◌≡◌, false, not, ◌&&◌, ◌||◌, [], ◌∷◌}
use tetanes.Cpu.Lines.{any_irq}
use tetanes.Tests.Machine.{memory_ops, calling_cpu}
use tetanes.Base.{true, false}
use tetanes.Cpu.Access.Interrupts.{polled, polled_all, polled_all-edge, rises}

polled_all-edge_example :
    ((polled_all (true ∷ true ∷ false ∷ []) calling_cpu).nmi
      ≡ (calling_cpu.nmi || rises calling_cpu.prev_nmi_pending (true ∷ true ∷ false ∷ [])))
    × ((polled true (polled_all (true ∷ true ∷ false ∷ []) calling_cpu)).prev_nmi
        ≡ (calling_cpu.nmi || rises calling_cpu.prev_nmi_pending (true ∷ true ∷ false ∷ [])))
    × ((polled true (polled_all (true ∷ true ∷ false ∷ []) calling_cpu)).prev_run_irq
        ≡ (polled_all (true ∷ true ∷ false ∷ []) calling_cpu).run_irq)
    × ((polled true calling_cpu).run_irq
        ≡ (any_irq calling_cpu.lines && not calling_cpu.status.interrupt))
polled_all-edge_example = polled_all-edge (true ∷ true ∷ false ∷ []) true calling_cpu
