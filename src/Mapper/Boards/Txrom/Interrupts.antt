-- ===== src/Mapper/Boards/Txrom/Interrupts.antt =====
-- When the interrupt of an MMC3 comes, in rises of bit 12 of the PPU's addresses.
use mathlib.Core.Bool.{or-true, or-false, and-true}
use tetanes.Base.{
  ℕ, suc, ◌+◌, ◌-◌, ◌/◌, ◌%◌, ◌≤◌, ◌<◌, ◌≡◌, refl, sym, ◌∙◌, ap, arith, Bool, true, false, ◌&&◌,
  ◌||◌, if◌then◌else◌, ltb, leb, ◌==◌, Bool-cases, inl, inr, List, [], ◌∷◌, length, bit_and,
  has_bits, ◌>>>◌,
}
use native.Mathlib.Nat.{mod-eq-sub-mod, mod-eq_of_lt}
use tetanes.Base.Bits.{bit_and_mask}
use tetanes.Cpu.Lines.{Lines, IrqSource, has_irq, set_irq}
use tetanes.Mapper.Boards.Txrom.{Regs, Txrom, Revision, is_bc, count_irq, clock_irq}

-- The rises that are left until the interrupt: the latch's after a reload, and the counter's else.
abbrev pub remaining : Regs → ℕ
remaining r = if (r.irq_counter == 0) || r.irq_reload then r.irq_latch + 1 else r.irq_counter

-- An address of the lower half of the pattern tables and one of the upper half.
abbrev pub IsRise : ℕ × ℕ → Type 0
IsRise (lo, hi) = (lo < 0x1000) × (0x1000 ≤ hi) × (hi < 0x2000)

abbrev pub AllRises : List (ℕ × ℕ) → Type 0
AllRises [] = Unit
AllRises (w ∷ ws) = IsRise w × AllRises ws

abbrev rise : ℕ × ℕ → Txrom → Lines → Txrom × Lines
rise (lo, hi) m l = let (m1, l1) = clock_irq lo m l in clock_irq hi m1 l1

abbrev pub rises : List (ℕ × ℕ) → Txrom → Lines → Txrom × Lines
rises [] m l = (m, l)
rises (w ∷ ws) m l = let (m1, l1) = rise w m l in rises ws m1 l1

abbrev with_clock : ℕ → Txrom × Lines → Txrom × Lines
with_clock last (m, l) = (record m { regs = record m.regs { last_clock = last } }, l)

level : (addr : ℕ) → bit_and (addr >>> 12) 1 ≡ addr / 4096 % 2
level addr = bit_and_mask 1 (addr / 4096)

clock_irq-low :
    (lo : ℕ) (m : Txrom) (l : Lines)
    → lo < 0x1000
    → m.revision ≡ Revision.rev_bc
    → clock_irq lo m l ≡ with_clock 0 (m, l)
unfolding clock_irq
clock_irq-low lo m l lt rev =
    let e : bit_and (lo >>> 12) 1 ≡ 0 = omega (arith, level lo) in
    let inside : ltb lo 0x2000 ≡ true = ground arith in
    elim (Bool-cases (m.regs.last_clock == 0)) [
      | inl c ↦ rw (rev, e, inside, c) refl
      | inr c ↦ rw (rev, e, inside, c) refl
    ]

clock_irq-high :
    (hi : ℕ) (m : Txrom) (l : Lines)
    → 0x1000 ≤ hi
    → hi < 0x2000
    → m.revision ≡ Revision.rev_bc
    → clock_irq hi (with_clock 0 (m, l)).0 l ≡ with_clock 1 (count_irq (with_clock 0 (m, l)).0 l)
unfolding clock_irq
clock_irq-high hi m l le lt rev =
    let e : bit_and (hi >>> 12) 1 ≡ 1 = omega (arith, level hi) in
    let inside : ltb hi 0x2000 ≡ true = ground arith in rw (rev, e, inside) refl

-- What a rise does to a board whose interrupt is enabled.
record Ticks (m m1 : Txrom) (l l1 : Lines) : Type 0 where
  revision : m1.revision ≡ Revision.rev_bc
  enabled : m1.regs.irq_enabled ≡ true
  latch : m1.regs.irq_latch ≡ m.regs.irq_latch
  left :
      remaining m1.regs
      ≡ (if remaining m.regs == 1 then m.regs.irq_latch + 1 else remaining m.regs - 1)
  pending : has_irq IrqSource.mapper l1 ≡ (has_irq IrqSource.mapper l || (remaining m.regs == 1))

raised :
    (b : Bool) (l : Lines)
    → has_irq IrqSource.mapper (if b then set_irq IrqSource.mapper l else l)
      ≡ (has_irq IrqSource.mapper l || b)
unfolding has_irq set_irq
raised true l = sym (or-true (has_irq IrqSource.mapper l))
raised false l = sym (or-false (has_irq IrqSource.mapper l))

-- The counter after a clock is 0 exactly if one rise was left.
spent :
    (counter latch : ℕ) (reload : Bool)
    → ((if (counter == 0) || reload then latch else counter - 1) == 0)
      ≡ ((if (counter == 0) || reload then latch + 1 else counter) == 1)
spent counter latch reload = ground arith

count_irq-Ticks :
    (m : Txrom) (l : Lines)
    → m.revision ≡ Revision.rev_bc
    → m.regs.irq_enabled ≡ true
    → Ticks m (count_irq m l).0 l (count_irq m l).1
unfolding count_irq
count_irq-Ticks m l rev on = record {
  revision = rev;
  enabled = on;
  latch = refl;
  left = ground arith;
  pending =
      let r = m.regs in
      let clocked =
        (if (r.irq_counter == 0) || r.irq_reload then r.irq_latch else r.irq_counter - 1) == 0 in
      let due : (has_bits r.irq_counter 0x01 || (is_bc m.revision || r.irq_reload))
            && (clocked && r.irq_enabled)
          ≡ (remaining r == 1) =
        rw (rev, on, or-true (has_bits r.irq_counter 0x01), and-true clocked)
          (spent r.irq_counter r.irq_latch r.irq_reload) in
      raised _ l ∙ ap (λ b. has_irq IrqSource.mapper l || b) due;
}

rise-Ticks :
    (w : ℕ × ℕ) (m : Txrom) (l : Lines)
    → IsRise w
    → m.revision ≡ Revision.rev_bc
    → m.regs.irq_enabled ≡ true
    → Ticks m (rise w m l).0 l (rise w m l).1
rise-Ticks (lo, hi) m l (low, le, lt) rev on =
    let m0 = (with_clock 0 (m, l)).0 in
    let t = count_irq-Ticks m0 l rev on in
    rw (clock_irq-low lo m l low rev, clock_irq-high hi m l le lt rev)
      (record {
        revision = t.revision;
        enabled = t.enabled;
        latch = t.latch;
        left = t.left;
        pending = t.pending;
      })

remaining_pos : (r : Regs) → 0 < remaining r
remaining_pos r = ground arith

later :
    (h : Bool) (left left1 latch n : ℕ)
    → 0 < left
    → left1 ≡ (if left == 1 then latch + 1 else left - 1)
    → ((h || (left == 1)) || leb left1 n) ≡ (h || leb left (suc n))
later true left left1 latch n pos e = refl
later false left left1 latch n pos e = ground arith

rises-irq :
    (ws : List (ℕ × ℕ)) (m : Txrom) (l : Lines)
    → AllRises ws
    → m.revision ≡ Revision.rev_bc
    → m.regs.irq_enabled ≡ true
    → has_irq IrqSource.mapper (rises ws m l).1
      ≡ (has_irq IrqSource.mapper l || leb (remaining m.regs) (length ws))
rises-irq [] m l all rev on =
    let none : leb (remaining m.regs) 0 ≡ false = ground (arith, remaining_pos m.regs) in
    rw none (sym (or-false (has_irq IrqSource.mapper l)))
rises-irq (w ∷ ws) m l (one, all) rev on =
    let q = rise w m l in
    let t = rise-Ticks w m l one rev on in
    rises-irq ws q.0 q.1 all t.revision t.enabled
    ∙ ap (λ h. h || leb (remaining q.0.regs) (length ws)) t.pending
    ∙ later (has_irq IrqSource.mapper l) (remaining m.regs) (remaining q.0.regs) m.regs.irq_latch
        (length ws) (remaining_pos m.regs) t.left

-- Of a count that starts again at a period, what is left after some steps.
abbrev pub left_after : ℕ → ℕ → ℕ → ℕ
left_after period left n = if leb left n then period - (n - left) % period else left - n

left_after-step :
    (left left1 latch n : ℕ)
    → 0 < left
    → left1 ≡ (if left == 1 then latch + 1 else left - 1)
    → left_after (latch + 1) left1 n ≡ left_after (latch + 1) left (suc n)
left_after-step left left1 latch n pos e = elim (Bool-cases (left == 1)) [
  | inl c ↦ elim (Bool-cases (leb (latch + 1) n)) [
    | inl d ↦
        let round : n % (latch + 1) ≡ (n - (latch + 1)) % (latch + 1) =
          mod-eq-sub-mod (ground arith) in
        ground arith
    | inr d ↦ let low : n % (latch + 1) ≡ n = mod-eq_of_lt (ground arith) in ground arith
  ]
  | inr c ↦ ground arith
]

rises-left :
    (ws : List (ℕ × ℕ)) (m : Txrom) (l : Lines)
    → AllRises ws
    → m.revision ≡ Revision.rev_bc
    → m.regs.irq_enabled ≡ true
    → remaining (rises ws m l).0.regs
      ≡ left_after (m.regs.irq_latch + 1) (remaining m.regs) (length ws)
rises-left [] m l all rev on = ground (arith, remaining_pos m.regs)
rises-left (w ∷ ws) m l (one, all) rev on =
    let q = rise w m l in
    let t = rise-Ticks w m l one rev on in
    rises-left ws q.0 q.1 all t.revision t.enabled
    ∙ ap (λ n. left_after (n + 1) (remaining q.0.regs) (length ws)) t.latch
    ∙ left_after-step (remaining m.regs) (remaining q.0.regs) m.regs.irq_latch (length ws)
        (remaining_pos m.regs) t.left

-- On an MMC3 of revision B or C whose interrupt is enabled, it is pending, after any rises of bit
-- 12 of the address, exactly if it was before or as many rises have come as were left; the count of those left runs down to it and
-- starts again there, with one more than the latch says.
pub rises-pending :
    (ws : List (ℕ × ℕ)) (m : Txrom) (l : Lines)
    → AllRises ws
    → m.revision ≡ Revision.rev_bc
    → m.regs.irq_enabled ≡ true
    → let r = rises ws m l in
      (has_irq IrqSource.mapper r.1
        ≡ (has_irq IrqSource.mapper l || leb (remaining m.regs) (length ws)))
      × (remaining r.0.regs ≡ left_after (m.regs.irq_latch + 1) (remaining m.regs) (length ws))
rises-pending ws m l all rev on = (rises-irq ws m l all rev on, rises-left ws m l all rev on)
