-- ===== src/Bus/Writes.antt =====
-- The writes of tetanes-core/src/bus.rs. `write_direct` has the arms without the mirrors, on which the
-- source recurs once, and `end_write` is what follows them.
use tetanes.Base.{ℕ, not, ◌&&◌, if◌then◌else◌, ◌==◌, length, set, bit_and, ◌<<<◌}
use tetanes.Cpu.Lines.{Lines, start_oam_dma}
use tetanes.Mapper.{MappedWrite, within}
use tetanes.Bus.{Bus, Parts, Channel, PpuWrite, ApuWrite, set_byte}

module _ {P A I : Type 0} (parts : Parts P A I) where
  -- What a write that the board has mapped does: to the save RAM where it is not protected, or to
  -- its protection.
  unfoldable pub write_mapped : MappedWrite → Bus P A I → Bus P A I
  write_mapped (MappedWrite.prg_ram mapped val) b =
      if not (length b.prg_ram == 0) && not b.prg_ram_protect
      then record b { prg_ram = set b.prg_ram mapped val }
      else b
  write_mapped (MappedWrite.prg_ram_protect protect) b = record b { prg_ram_protect = protect }
  write_mapped _ b = b

  unfoldable pub write_cart : ℕ → ℕ → Bus P A I → Lines → Bus P A I × Lines
  unfolding write_mapped
  write_cart addr val b l =
      let (mapped, p, l1) = parts.map_write addr val b.ppu l in
      (write_mapped mapped (record b { ppu = p }), l1)

  abbrev to_ppu : PpuWrite → ℕ → Bus P A I → Lines → Bus P A I × Lines
  to_ppu w val b l = let (p, l1) = parts.ppu_write w val b.ppu l in (record b { ppu = p }, l1)

  abbrev to_apu : ApuWrite → ℕ → Bus P A I → Lines → Bus P A I × Lines
  to_apu w val b l = let (a, l1) = parts.apu_write w val b.apu l in (record b { apu = a }, l1)

  unfoldable pub write_ppu : ℕ → ℕ → Bus P A I → Lines → Bus P A I × Lines
  write_ppu addr val b l =
      if addr == 0x2000
      then to_ppu PpuWrite.write_ctrl val b l
      else if addr == 0x2001
      then to_ppu PpuWrite.write_mask val b l
      else if addr == 0x2002
      then (record b { ppu = parts.set_ppu_open_bus val b.ppu }, l)
      else if addr == 0x2003
      then to_ppu PpuWrite.write_oamaddr val b l
      else if addr == 0x2004
      then to_ppu PpuWrite.write_oamdata val b l
      else if addr == 0x2005
      then to_ppu PpuWrite.write_scroll val b l
      else if addr == 0x2006
      then to_ppu PpuWrite.write_addr val b l
      else to_ppu PpuWrite.write_data val b l

  -- The registers of the APU that $4000 to $4013 select.
  unfoldable pub write_channel : ℕ → ℕ → Bus P A I → Lines → Bus P A I × Lines
  write_channel addr val b l =
      if addr == 0x4000
      then to_apu (ApuWrite.write_ctrl Channel.pulse1) val b l
      else if addr == 0x4001
      then to_apu (ApuWrite.write_sweep Channel.pulse1) val b l
      else if addr == 0x4002
      then to_apu (ApuWrite.write_timer_lo Channel.pulse1) val b l
      else if addr == 0x4003
      then to_apu (ApuWrite.write_timer_hi Channel.pulse1) val b l
      else if addr == 0x4004
      then to_apu (ApuWrite.write_ctrl Channel.pulse2) val b l
      else if addr == 0x4005
      then to_apu (ApuWrite.write_sweep Channel.pulse2) val b l
      else if addr == 0x4006
      then to_apu (ApuWrite.write_timer_lo Channel.pulse2) val b l
      else if addr == 0x4007
      then to_apu (ApuWrite.write_timer_hi Channel.pulse2) val b l
      else if addr == 0x4008
      then to_apu ApuWrite.write_linear_counter val b l
      else if addr == 0x400a
      then to_apu (ApuWrite.write_timer_lo Channel.triangle) val b l
      else if addr == 0x400b
      then to_apu (ApuWrite.write_timer_hi Channel.triangle) val b l
      else if addr == 0x400c
      then to_apu (ApuWrite.write_ctrl Channel.noise) val b l
      else if addr == 0x400e
      then to_apu (ApuWrite.write_timer_lo Channel.noise) val b l
      else if addr == 0x400f
      then to_apu (ApuWrite.write_length Channel.noise) val b l
      else if addr == 0x4010
      then to_apu (ApuWrite.write_timer_lo Channel.dmc) val b l
      else if addr == 0x4011
      then to_apu ApuWrite.write_dmc_output val b l
      else if addr == 0x4012
      then to_apu ApuWrite.write_dmc_addr val b l
      else if addr == 0x4013
      then to_apu (ApuWrite.write_length Channel.dmc) val b l
      else (b, l)

  unfoldable pub write_direct : ℕ → ℕ → Bus P A I → Lines → Bus P A I × Lines
  unfolding write_cart write_ppu write_channel start_oam_dma
  write_direct addr val b l =
      if within addr 0x0000 0x07ff
      then (record b { wram = set_byte b.wram addr val }, l)
      else if within addr 0x4020 0xffff
      then write_cart addr val b l
      else if within addr 0x2000 0x2007
      then write_ppu addr val b l
      else if within addr 0x4000 0x4013
      then write_channel addr val b l
      else if addr == 0x4014
      then (b, start_oam_dma (val <<< 8) l)
      else if addr == 0x4015
      then to_apu ApuWrite.write_status val b l
      else if addr == 0x4016
      then (record b { input = parts.input_write val b.input }, l)
      else if addr == 0x4017
      then to_apu ApuWrite.write_frame_counter val b l
      else (b, l)

  unfoldable pub end_write : ℕ → ℕ → Bus P A I × Lines → Bus P A I × Lines
  end_write addr val (b, l) =
      let (p, l1) = parts.cpu_bus_write addr val b.ppu l in
      (record b { open_bus = val; ppu = p }, l1)

  unfoldable pub write : ℕ → ℕ → Bus P A I → Lines → Bus P A I × Lines
  unfolding write_direct end_write
  write addr val b l =
      let at =
        if within addr 0x0800 0x1fff
        then bit_and addr 0x07ff
        else if within addr 0x2008 0x3fff
        then bit_and addr 0x2007
        else addr in
      end_write at val (write_direct at val b l)
