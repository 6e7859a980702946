-- ===== src/Cpu/Access/Interrupts.antt =====
-- The edge detector of the NMI line and the delay of the interrupts.
use tetanes.Base.{◌≡◌, refl, arith, Bool, false, not, ◌&&◌, ◌||◌, List, [], ◌∷◌}
use tetanes.Cpu.Lines.{any_irq}
use tetanes.Cpu.State.{BusOps, Cpu}
use tetanes.Cpu.Access.{handle_interrupts}

-- Whether a line that was at the level `prev` rises in the sequence.
unfoldable pub rises : Bool → List Bool → Bool
rises prev [] = false
rises prev (level ∷ levels) = (not prev && level) || rises level levels

module _ {B : Type 0} ⦃ops : BusOps B⦄ where
  -- A cycle at whose end the NMI line has the level.
  unfoldable pub polled : Bool → Cpu B → Cpu B
  unfolding handle_interrupts
  polled level c = handle_interrupts (record c { lines = record (c.lines) { nmi = level } })

  unfoldable pub polled_all : List Bool → Cpu B → Cpu B
  unfolding polled
  polled_all [] c = c
  polled_all (level ∷ levels) c = polled_all levels (polled level c)

  -- After any sequence of cycles, an NMI is due exactly if one was due before or the line rose in
  -- the sequence; the one that the next instruction sees is that of the cycle before, and so is
  -- the IRQ, which is due where a line is set and I is clear.
  pub polled_all-edge :
      (levels : List Bool) (last : Bool) (c : Cpu B)
      → ((polled_all levels c).nmi ≡ (c.nmi || rises c.prev_nmi_pending levels))
        × ((polled last (polled_all levels c)).prev_nmi
            ≡ (c.nmi || rises c.prev_nmi_pending levels))
        × ((polled last (polled_all levels c)).prev_run_irq ≡ (polled_all levels c).run_irq)
        × ((polled last c).run_irq ≡ (any_irq c.lines && not c.status.interrupt))
  unfolding rises polled_all
  polled_all-edge [] last c = (ground arith, ground arith, refl, refl)
  polled_all-edge (level ∷ levels) last c =
      let (due, seen, irq, _) = polled_all-edge levels last (polled level c) in
      (ground arith, ground arith, irq, refl)
