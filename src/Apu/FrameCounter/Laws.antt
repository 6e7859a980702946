-- ===== src/Apu/FrameCounter/Laws.antt =====
-- The sequencer's bounds, its interrupt, its frames, and the delay of a write to $4017.
use tetanes.Base.{
  ℕ, suc, ◌+◌, ◌≤◌, ◌<◌, ◌≡◌, refl, ◌∙◌, ◌⊎◌, inl, inr, Option, none, some, List, [], ◌∷◌, arith,
  if◌then◌else◌, leb, not, ◌&&◌, ◌==◌, usize, has_bits, length,
}
use tetanes.Cpu.Lines
use tetanes.Cpu.Lines.{Lines, IrqSource}
use tetanes.Apu.FrameCounter.{
  FrameCounter, Progress, write, clock_with, step_cycles_at, advance, delayed_write, unblock,
}

-- What holds of a sequencer between two calls.
pub record IsValid (f : FrameCounter) : Type 0 where
  pub step_lt : f.step < 6
  pub mode_lt : f.mode < 2
  pub delay_pos : {val : ℕ} → f.write_buffer ≡ some val → 0 < f.write_delay
  pub delay_le : f.write_delay ≤ 4
  pub block_le : f.block_counter ≤ 2

advance-IsValid :
    (cycles : ℕ) (f : FrameCounter) (l : Lines) → IsValid f → IsValid (advance cycles f l).frame
unfolding advance
advance-IsValid cycles f l v = record {
  step_lt = ground arith;
  mode_lt = ground arith;
  delay_pos = λ {val} e. ground (arith, v.delay_pos {val = val});
  delay_le = ground arith;
  block_le = ground arith;
}

delayed_write-IsValid :
    (o : Option ℕ) (p : Progress)
    → p.frame.write_buffer ≡ o
    → IsValid p.frame
    → IsValid (delayed_write o p).frame
unfolding delayed_write
delayed_write-IsValid none p e v = v
delayed_write-IsValid (some val) p e v =
    let pos : 0 < p.frame.write_delay = v.delay_pos e in
    record {
      step_lt = ground arith;
      mode_lt = ground arith;
      delay_pos = λ h. ground arith;
      delay_le = ground arith;
      block_le = ground arith;
    }

unblock-IsValid : (p : Progress) → IsValid p.frame → IsValid (unblock p).frame
unfolding unblock
unblock-IsValid p v = record {
  step_lt = ground arith;
  mode_lt = ground arith;
  delay_pos = λ {val} h. ground (arith, v.delay_pos {val = val});
  delay_le = ground arith;
  block_le = ground arith;
}

-- No step leaves the tables, and the write delay and the block counter never run below 0.
pub clock_with-IsValid :
    (cycles : ℕ) (f : FrameCounter) (l : Lines) → IsValid f → IsValid (clock_with cycles f l).frame
unfolding clock_with
clock_with-IsValid cycles f l v =
    let p = advance cycles f l in
    unblock-IsValid (delayed_write p.frame.write_buffer p)
      (delayed_write-IsValid p.frame.write_buffer p refl (advance-IsValid cycles f l v))

delayed_write-lines : (o : Option ℕ) (p : Progress) → (delayed_write o p).lines ≡ p.lines
unfolding delayed_write
delayed_write-lines none p = refl
delayed_write-lines (some val) p = ground arith

unblock-lines : (p : Progress) → (unblock p).lines ≡ p.lines
unfolding unblock
unblock-lines p = ground arith

-- A call raises the frame interrupt exactly when the end of a step is reached, that step is one of
-- the last three, the mode is the four-step one and the interrupt is not inhibited; it changes no
-- other interrupt or DMA line, and in every other case none at all.
clock_with-lines :
    (cycles : ℕ) (f : FrameCounter) (l : Lines)
    → (clock_with cycles f l).lines ≡ (
        if leb (step_cycles_at f) (usize (f.cycle + cycles))
          && (not f.inhibit_irq && (f.mode == 0 && leb 3 f.step))
        then Lines.set_irq IrqSource.frame_counter l
        else l)
unfolding clock_with
clock_with-lines cycles f l =
    let p = advance cycles f l in
    unblock-lines (delayed_write p.frame.write_buffer p)
    ∙ delayed_write-lines p.frame.write_buffer p
    ∙ (unfold advance in ground arith)

-- Nothing was clocked yet, or one frame was and a second one is blocked.
abbrev Once : Progress → Type 0
Once p = (p.clocked ≡ []) ⊎ ((length p.clocked ≡ 1) × (0 < p.frame.block_counter))

advance-Once : (cycles : ℕ) (f : FrameCounter) (l : Lines) → Once (advance cycles f l)
unfolding advance
advance-Once cycles f l = ground arith

delayed_write-Once : (o : Option ℕ) (p : Progress) → Once p → length (delayed_write o p).clocked ≤ 1
unfolding delayed_write
delayed_write-Once none p h = ground arith
delayed_write-Once (some val) p (inl e) = rw e (ground arith)
delayed_write-Once (some val) p (inr (e, b)) = ground arith

unblock-clocked : (p : Progress) → (unblock p).clocked ≡ p.clocked
unfolding unblock
unblock-clocked p = ground arith

-- One call clocks the channels at most once, also where a step and a delayed write fall together.
pub clock_with-clocked-le :
    (cycles : ℕ) (f : FrameCounter) (l : Lines) → length (clock_with cycles f l).clocked ≤ 1
unfolding clock_with
clock_with-clocked-le cycles f l =
    let p = advance cycles f l in
    let q = delayed_write p.frame.write_buffer p in
    rw (unblock-clocked q) (delayed_write-Once p.frame.write_buffer p (advance-Once cycles f l))

-- One call of `clock_with` for each entry, the number of cycles asked for.
abbrev pub calls : List ℕ → FrameCounter × Lines → FrameCounter × Lines
calls [] s = s
calls (c ∷ cs) (f, l) = let p = clock_with c f l in calls cs (p.frame, p.lines)

-- What a write of $4017 leaves pending.
record IsPending (val delay : ℕ) (f : FrameCounter) : Type 0 where
  buffered : f.write_buffer ≡ some val
  remaining : f.write_delay ≡ delay

pub record IsApplied (val : ℕ) (f : FrameCounter) : Type 0 where
  pub empty : f.write_buffer ≡ none
  pub mode_eq : f.mode ≡ (if has_bits val 0x80 then 1 else 0)
  pub step_eq : f.step ≡ 0
  pub cycle_eq : f.cycle ≡ 0

advance-IsPending :
    (cycles : ℕ) {val d : ℕ} (f : FrameCounter) (l : Lines)
    → IsPending val d f
    → IsPending val d (advance cycles f l).frame
unfolding advance
advance-IsPending cycles f l v = ground arith

later-IsPending :
    (val d : ℕ) (p : Progress)
    → d < 255
    → IsPending val (suc (suc d)) p.frame
    → IsPending val (suc d) (unblock (delayed_write (some val) p)).frame
unfolding delayed_write unblock
later-IsPending val d p h v = ground arith

last-IsApplied :
    (val : ℕ) (p : Progress)
    → IsPending val 1 p.frame
    → IsApplied val (unblock (delayed_write (some val) p)).frame
unfolding delayed_write unblock
last-IsApplied val p v = ground arith

clock_with-IsPending :
    (cycles val d : ℕ) (f : FrameCounter) (l : Lines)
    → d < 255
    → IsPending val (suc (suc d)) f
    → IsPending val (suc d) (clock_with cycles f l).frame
unfolding clock_with
clock_with-IsPending cycles val d f l h v =
    let w = advance-IsPending cycles f l v in
    rw w.buffered (later-IsPending val d (advance cycles f l) h w)

clock_with-IsApplied :
    (cycles val : ℕ) (f : FrameCounter) (l : Lines)
    → IsPending val 1 f
    → IsApplied val (clock_with cycles f l).frame
unfolding clock_with
clock_with-IsApplied cycles val f l v =
    let w = advance-IsPending cycles f l v in
    rw w.buffered (last-IsApplied val (advance cycles f l) w)

calls-IsApplied :
    (val c : ℕ) (cs : List ℕ) (f : FrameCounter) (l : Lines)
    → length cs < 254
    → IsPending val (length (c ∷ cs)) f
    → IsApplied val (calls (c ∷ cs) (f, l)).0
calls-IsApplied val c [] f l h v = clock_with-IsApplied c val f l v
calls-IsApplied val c (c' ∷ cs) f l h v =
    let p = clock_with c f l in
    calls-IsApplied val c' cs p.frame p.lines (omega arith)
      (clock_with-IsPending c val (length cs) f l (omega arith) v)

-- A write to $4017 takes effect after exactly four calls of `clock_with` if it came in an odd
-- cycle, else after three, whatever number of cycles each call asks for: the mode is then bit 7 of
-- the value and the sequence starts again.
pub write-calls :
    (val cycle c : ℕ) (cs : List ℕ) (f : FrameCounter) (l : Lines)
    → length (c ∷ cs) ≡ (if has_bits cycle 0x01 then 4 else 3)
    → IsApplied val (calls (c ∷ cs) (write val cycle (f, l))).0
write-calls val cycle c cs f l h =
    let s = write val cycle (f, l) in
    calls-IsApplied val c cs s.0 s.1 (ground arith) (unfold write in ground arith)
