-- ===== src/Ppu/Access/Race.antt =====
-- A read of PPUSTATUS just before the vertical blank.
use tetanes.Base.{ℕ, ◌≡◌, refl, ◌∙◌, Bool, false, not, ◌&&◌, ◌==◌, Bool-cases, inl, inr}
use tetanes.Cpu.Lines.{Lines, set_nmi, clear_nmi}
use tetanes.Ppu.Bus.{Board}
use tetanes.Ppu.Status.{set_in_vblank, reset_in_vblank}
use tetanes.Ppu.State.{Ppu}
use tetanes.Ppu.Access.{read_status, start_vblank}

-- A board that watches the bus without touching the NMI line.
pub record SparesNmi {M : Type 0} (board : Board M) : Type 0 where
  pub spares : (at val : ℕ) (m : M) (l : Lines) → ((board.ppu_bus_write at val m l).1.nmi ≡ l.nmi)

-- Whether the next cycle is the one that starts the vertical blank.
abbrev pub is_racing : {M : Type 0} → Ppu M → Bool
is_racing p = p.scanline == p.vblank_scanline && p.cycle == 0

module _ {M : Type 0} (board : Board M) where
  -- If the blank starts after a read of PPUSTATUS, its flag is set unless the read was in the cycle
  -- before, and the NMI is raised unless so or it is disabled, provided that no blank was prevented
  -- before.
  pub start_vblank-read_status :
      (p : Ppu M) (l : Lines)
      → SparesNmi board
      → p.prevent_vbl ≡ false
      → let r : ℕ × Ppu M × Lines = read_status board p l in
        let s : Ppu M × Lines = start_vblank board r.1 r.2 in
        (s.0.status.in_vblank ≡ not (is_racing p))
        × (s.1.nmi ≡ (not (is_racing p) && p.ctrl.nmi_enabled))
  unfolding read_status start_vblank set_in_vblank reset_in_vblank set_nmi clear_nmi
  start_vblank-read_status p l b h = elim (Bool-cases (is_racing p)) [
    | inl e ↦ rw e (refl, b.spares _ _ _ _ ∙ b.spares _ _ _ _)
    | inr e ↦ elim (Bool-cases p.ctrl.nmi_enabled) [
      | inl f ↦ rw (e, f, h) (refl, b.spares _ _ _ _)
      | inr f ↦ rw (e, f, h) (refl, b.spares _ _ _ _ ∙ b.spares _ _ _ _)
    ]
  ]
