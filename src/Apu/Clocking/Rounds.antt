-- ===== src/Apu/Clocking/Rounds.antt =====
-- The loop of `clock_to` ends with the APU at the cycle that it was sent to.
use tetanes.Base.{
  ℕ, zero, suc, ◌+◌, ◌-◌, ◌≤◌, ◌<◌, ◌≡◌, refl, ◌∙◌, ap, arith, ltb, Bool-cases, inl, inr, List, [],
  ◌∷◌, usize,
}
use tetanes.Cpu.Lines.{Lines}
use tetanes.Apu.FrameCounter.{FrameCounter, FrameType, clock_with}
use tetanes.Apu.FrameCounter.Running.{IsBounded, lag, clock_with-Runs}
use tetanes.Apu.Clocking.{
  Apu, Channel, frame_clock, frame_clocks, reload_lengths, channel_clock_to, clock_round,
  clock_rounds, clock_to,
}

module _ {X : Type 0} where
  -- The time of the APU and its sequencer, which the channels do not touch.
  abbrev times : Apu X → ℕ × ℕ × FrameCounter
  times a = (a.master_cycle, a.cycle, a.frame_counter)

  frame_clocks-times :
      (clocked : List FrameType) (a : Apu X) → times (frame_clocks clocked a) ≡ times a
  unfolding frame_clocks frame_clock
  frame_clocks-times [] a = refl
  frame_clocks-times (FrameType.quarter ∷ rest) a =
      frame_clocks-times rest (frame_clock FrameType.quarter a)
  frame_clocks-times (FrameType.half ∷ rest) a =
      frame_clocks-times rest (frame_clock FrameType.half a)
  frame_clocks-times (FrameType.no_frame ∷ rest) a = frame_clocks-times rest a

  channel_clock_to-times :
      (c : Channel) (cycle : ℕ) (a : Apu X) (l : Lines)
      → times (channel_clock_to c cycle a l).0 ≡ times a
  unfolding channel_clock_to
  channel_clock_to-times Channel.pulse1 cycle a l = refl
  channel_clock_to-times Channel.pulse2 cycle a l = refl
  channel_clock_to-times Channel.triangle cycle a l = refl
  channel_clock_to-times Channel.noise cycle a l = refl
  channel_clock_to-times Channel.dmc cycle a l = refl
  channel_clock_to-times Channel.mapper cycle a l = refl

  clock_round-times :
      (a : Apu X) (l : Lines)
      → let p = clock_with (a.master_cycle - a.cycle) a.frame_counter l in
        times (clock_round a l).0 ≡ (a.master_cycle, usize (a.cycle + p.cycles_ran), p.frame)
  unfolding clock_round reload_lengths channel_clock_to
  clock_round-times a l =
      let p = clock_with (a.master_cycle - a.cycle) a.frame_counter l in
      let a1 : Apu X = record a { frame_counter = p.frame } in
      let framed = frame_clocks-times p.clocked a1 in
      ap (λ (t : ℕ × ℕ × FrameCounter). (t.0, usize (a.cycle + p.cycles_ran), t.2)) framed

  clock_rounds-cycle :
      (fuel : ℕ) (a : Apu X) (l : Lines)
      → a.cycle ≤ a.master_cycle
      → a.master_cycle ≤ 10000
      → IsBounded a.frame_counter
      → a.master_cycle - a.cycle + lag a.frame_counter ≤ fuel
      → (clock_rounds fuel a l).0.cycle ≡ a.master_cycle
  unfolding clock_rounds
  clock_rounds-cycle zero a l le small b enough = omega arith
  clock_rounds-cycle (suc fuel) a l le small b enough =
      elim (Bool-cases (ltb 0 (a.master_cycle - a.cycle))) [
        | inl e ↦
            let pos : 0 < a.master_cycle - a.cycle = ground arith in
            let p = clock_with (a.master_cycle - a.cycle) a.frame_counter l in
            let r =
              clock_with-Runs (a.master_cycle - a.cycle) a.frame_counter l pos (omega arith) b in
            let q = clock_round a l in
            let t = clock_round-times a l in
            let master : q.0.master_cycle ≡ a.master_cycle =
              ap (λ (x : ℕ × ℕ × FrameCounter). x.0) t in
            let cycle : q.0.cycle ≡ usize (a.cycle + p.cycles_ran) =
              ap (λ (x : ℕ × ℕ × FrameCounter). x.1) t in
            let frame : q.0.frame_counter ≡ p.frame = ap (λ (x : ℕ × ℕ × FrameCounter). x.2) t in
            let ran = r.ran_le in
            let less = r.less in
            let same : lag q.0.frame_counter ≡ lag p.frame = ap lag frame in
            let bounded : IsBounded q.0.frame_counter = rw frame r.bounded in
            rw e (
              clock_rounds-cycle fuel q.0 q.1 (omega arith) (omega arith) bounded (omega arith)
              ∙ master)
        | inr e ↦ rw e (ground arith)
      ]

  -- Sent to a cycle that does not lie behind it, the APU reaches it, in the rounds that the model
  -- gives it, whatever the frame counter's state and region.
  pub clock_to-cycle :
      (cycle : ℕ) (a : Apu X) (l : Lines)
      → a.cycle ≤ cycle
      → cycle ≤ 10000
      → IsBounded a.frame_counter
      → ((clock_to cycle a l).1.cycle ≡ cycle) × ((clock_to cycle a l).0 ≡ cycle - a.cycle)
  unfolding clock_to
  clock_to-cycle cycle a l le small b =
      let behind : lag a.frame_counter ≤ 6 = ground arith in
      (
        clock_rounds-cycle (cycle - a.cycle + 6) (record a { master_cycle = cycle }) l le small b
            (omega arith),
        refl,
      )
