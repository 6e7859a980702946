-- ===== src/Apu/FrameCounter/Running.antt =====
-- The sequencer never stands still: a call runs a cycle, or leaves a step behind that a change of
-- the region has put in the past.
use tetanes.Base.{
  ℕ, zero, suc, ◌+◌, ◌-◌, ◌≤◌, ◌<◌, ◌≡◌, refl, ◌∙◌, ap, arith, Bool, true, if◌then◌else◌, leb, ◌==◌,
  ◌&&◌, not, ltb, Bool-cases, inl, inr, Option, none, some, List, [], ◌∷◌, get_or, length, sub_u8,
  usize, has_bits,
}
use tetanes.Common.{NesRegion, auto, ntsc, pal, dendy}
use tetanes.Cpu.Lines.{Lines}
use tetanes.Apu.FrameCounter.{
  FrameCounter, Progress, step_cycles_of, step_cycles_ntsc, step_cycles_pal, step_cycles_at,
  frame_type, no_frame, is_no_frame, clock_with, advance, finish_step, delayed_write, apply_write,
  unblock,
}

-- The cycles of a step.
abbrev pub entry : List (List ℕ) → ℕ → ℕ → ℕ
entry tables mode step = get_or (get_or tables mode []) step 0

-- A row of the tables: positive entries, one larger than the other, that a counter can hold.
abbrev is_row : ℕ → List ℕ → Bool
is_row least [] = true
is_row least (x ∷ xs) = ltb least x && (leb x 50000 && is_row x xs)

row-first :
    (least : ℕ) (xs : List ℕ) → is_row least xs ≡ true → 0 < length xs → least < get_or xs 0 0
row-first least [] h lt = absurd (omega arith)
row-first least (x ∷ xs) h lt = ground arith

row-grows :
    (least : ℕ) (xs : List ℕ) (step : ℕ)
    → is_row least xs ≡ true
    → suc step < length xs
    → get_or xs step 0 < get_or xs (suc step) 0
row-grows least [] step h lt = absurd (omega arith)
row-grows least (x ∷ xs) zero h lt =
    let rest : is_row x xs ≡ true = ground arith in row-first x xs rest (omega arith)
row-grows least (x ∷ xs) (suc step) h lt =
    let rest : is_row x xs ≡ true = ground arith in row-grows x xs step rest (omega arith)

row-le :
    (least : ℕ) (xs : List ℕ) (step : ℕ)
    → is_row least xs ≡ true
    → step < length xs
    → get_or xs step 0 ≤ 50000
row-le least [] step h lt = absurd (omega arith)
row-le least (x ∷ xs) zero h lt = ground arith
row-le least (x ∷ xs) (suc step) h lt =
    let rest : is_row x xs ≡ true = ground arith in row-le x xs step rest (omega arith)

-- Tables of two such rows of six steps.
pub record Grows (tables : List (List ℕ)) : Type 0 where
  pub rows : (mode : ℕ) → mode < 2 → is_row 0 (get_or tables mode []) ≡ true
  pub sizes : (mode : ℕ) → mode < 2 → length (get_or tables mode []) ≡ 6

pub step_cycles_of-Grows : (region : NesRegion) → Grows (step_cycles_of region)
unfolding step_cycles_of step_cycles_ntsc step_cycles_pal
step_cycles_of-Grows region = record { rows = rows_of region; sizes = sizes_of region }
  where
    rows_of :
        (region : NesRegion) (mode : ℕ)
        → mode < 2
        → is_row 0 (get_or (step_cycles_of region) mode []) ≡ true
    rows_of pal zero h = refl
    rows_of pal (suc zero) h = refl
    rows_of auto zero h = refl
    rows_of auto (suc zero) h = refl
    rows_of ntsc zero h = refl
    rows_of ntsc (suc zero) h = refl
    rows_of dendy zero h = refl
    rows_of dendy (suc zero) h = refl
    rows_of region (suc (suc mode)) h = absurd (omega arith)

    sizes_of :
        (region : NesRegion) (mode : ℕ)
        → mode < 2
        → length (get_or (step_cycles_of region) mode []) ≡ 6
    sizes_of pal zero h = refl
    sizes_of pal (suc zero) h = refl
    sizes_of auto zero h = refl
    sizes_of auto (suc zero) h = refl
    sizes_of ntsc zero h = refl
    sizes_of ntsc (suc zero) h = refl
    sizes_of dendy zero h = refl
    sizes_of dendy (suc zero) h = refl
    sizes_of region (suc (suc mode)) h = absurd (omega arith)

pub record IsBounded (f : FrameCounter) : Type 0 where
  pub step_lt : f.step < 6
  pub mode_lt : f.mode < 2
  pub cycle_le : f.cycle ≤ 50000
  pub tables : Grows f.step_cycles

-- The steps that lie in the past.
abbrev pub lag : FrameCounter → ℕ
lag f = if leb (step_cycles_at f) f.cycle then 6 - f.step else 0

pub record Runs (cycles : ℕ) (f g : FrameCounter) (ran : ℕ) : Type 0 where
  pub ran_le : ran ≤ cycles
  pub bounded : IsBounded g
  pub less : lag g + 1 ≤ lag f + ran

-- What the end of a step leaves in the fields that count.
record Ended (f g : FrameCounter) (ran : ℕ) : Type 0 where
  step_eq : g.step ≡ (if usize (f.step + 1) == 6 then 0 else usize (f.step + 1))
  cycle_eq : g.cycle ≡ (if usize (f.step + 1) == 6 then 0 else usize (f.cycle + ran))
  mode_eq : g.mode ≡ f.mode
  tables_eq : g.step_cycles ≡ f.step_cycles

abbrev left_of : FrameCounter → ℕ
left_of f = if leb f.cycle (step_cycles_at f) then step_cycles_at f - f.cycle else 0

finish_step-Ended :
    (cycles : ℕ) (f : FrameCounter) (l : Lines) → Ended f (finish_step cycles f l).frame (left_of f)
unfolding finish_step
finish_step-Ended cycles f l =
    let ty = get_or frame_type f.step no_frame in
    elim (Bool-cases (not (is_no_frame ty) && f.block_counter == 0)) [
      | inl e ↦ elim (Bool-cases (usize (f.step + 1) == 6)) [
        | inl h ↦
            rw (e, h)
              (record {
                step_eq = rw h refl;
                cycle_eq = rw h refl;
                mode_eq = refl;
                tables_eq = refl;
              })
        | inr h ↦
            rw (e, h)
              (record {
                step_eq = rw h refl;
                cycle_eq = rw h refl;
                mode_eq = refl;
                tables_eq = refl;
              })
      ]
      | inr e ↦ elim (Bool-cases (usize (f.step + 1) == 6)) [
        | inl h ↦
            rw (e, h)
              (record {
                step_eq = rw h refl;
                cycle_eq = rw h refl;
                mode_eq = refl;
                tables_eq = refl;
              })
        | inr h ↦
            rw (e, h)
              (record {
                step_eq = rw h refl;
                cycle_eq = rw h refl;
                mode_eq = refl;
                tables_eq = refl;
              })
      ]
    ]

ended :
    (cycles : ℕ) (f : FrameCounter) (l : Lines)
    → 0 < cycles
    → step_cycles_at f ≤ f.cycle + cycles
    → IsBounded f
    → Runs cycles f (finish_step cycles f l).frame (finish_step cycles f l).cycles_ran
unfolding finish_step
ended cycles f l pos reached b =
    let g = (finish_step cycles f l).frame in
    let e = finish_step-Ended cycles f l in
    let row = b.tables.rows f.mode b.mode_lt in
    let size = b.tables.sizes f.mode b.mode_lt in
    let cycle_le = b.cycle_le in
    let step_lt = b.step_lt in
    let steps = get_or f.step_cycles f.mode [] in
    let here_le : step_cycles_at f ≤ 50000 = row-le 0 steps f.step row (omega arith) in
    let first : 0 < get_or steps 0 0 = row-first 0 steps row (omega arith) in
    let there : step_cycles_at g ≡ get_or steps g.step 0 =
      λ k. get_or (get_or (e.tables_eq k) (e.mode_eq k) []) g.step 0 in
    let step = e.step_eq in
    let cycle = e.cycle_eq in
    let next : usize (f.step + 1) ≡ suc f.step = omega arith in
    let grown : suc f.step < 6 → get_or steps f.step 0 < get_or steps (suc f.step) 0 =
      λ lt. row-grows 0 steps f.step row (omega arith) in
    let entry_at : (s : ℕ) → g.step ≡ s → step_cycles_at g ≡ get_or steps s 0 =
      λ s h. there ∙ ap (λ x. get_or steps x 0) h in
    record {
      ran_le = ground arith;
      bounded = record {
        step_lt = ground arith;
        mode_lt = omega (arith, e.mode_eq, b.mode_lt);
        cycle_le = ground arith;
        tables = rw e.tables_eq b.tables;
      };
      less = ground arith;
    }

advance-Runs :
    (cycles : ℕ) (f : FrameCounter) (l : Lines)
    → 0 < cycles
    → cycles ≤ 10000
    → IsBounded f
    → Runs cycles f (advance cycles f l).frame (advance cycles f l).cycles_ran
unfolding advance
advance-Runs cycles f l pos le b =
    let here = step_cycles_at f in
    let row = b.tables.rows f.mode b.mode_lt in
    let size = b.tables.sizes f.mode b.mode_lt in
    let cycle_le = b.cycle_le in
    let step_lt = b.step_lt in
    let here_le : here ≤ 50000 =
      row-le 0 (get_or f.step_cycles f.mode []) f.step row (omega arith) in
    let whole : usize (f.cycle + cycles) ≡ f.cycle + cycles = omega arith in
    elim (Bool-cases (leb here (usize (f.cycle + cycles)))) [
      | inl reached ↦ rw reached (ended cycles f l (omega arith) (ground arith) b)
      | inr before ↦
          let ahead : usize (f.cycle + cycles) < here = ground arith in
          rw before (record {
            ran_le = omega arith;
            bounded = record {
              step_lt = b.step_lt;
              mode_lt = b.mode_lt;
              cycle_le = omega arith;
              tables = b.tables;
            };
            less = ground arith;
          })
    ]

-- The first step of either mode lies ahead.
started-Runs :
    (cycles ran : ℕ) (f g : FrameCounter) (mode : ℕ)
    → mode < 2
    → Runs cycles f g ran
    → Runs cycles f (record g { mode = mode; step = 0; cycle = 0 }) ran
started-Runs cycles ran f g mode lt r =
    let row = r.bounded.tables.rows mode lt in
    let size = r.bounded.tables.sizes mode lt in
    let first : 0 < get_or (get_or g.step_cycles mode []) 0 0 =
      row-first 0 (get_or g.step_cycles mode []) row (omega arith) in
    let less = r.less in
    record {
      ran_le = r.ran_le;
      bounded = record {
        step_lt = omega arith;
        mode_lt = lt;
        cycle_le = omega arith;
        tables = r.bounded.tables;
      };
      less = ground arith;
    }

-- The fields that count are the same.
same-Runs :
    (cycles ran : ℕ) (f g h : FrameCounter)
    → (h.step ≡ g.step) × (h.mode ≡ g.mode) × (h.cycle ≡ g.cycle) × (h.step_cycles ≡ g.step_cycles)
    → Runs cycles f g ran
    → Runs cycles f h ran
same-Runs cycles ran f g h (step, mode, cycle, tables) r =
    let b = r.bounded in
    let same : lag h ≡ lag g = λ k.
      if leb (get_or (get_or (tables k) (mode k) []) (step k) 0) (cycle k) then 6 - step k else 0 in
    record {
      ran_le = r.ran_le;
      bounded = record {
        step_lt = omega (arith, step, b.step_lt);
        mode_lt = omega (arith, mode, b.mode_lt);
        cycle_le = omega (arith, cycle, b.cycle_le);
        tables = rw tables b.tables;
      };
      less = omega (arith, same, r.less);
    }

apply_write-Runs :
    (cycles ran : ℕ) (f : FrameCounter) (val : ℕ) (p : Progress)
    → Runs cycles f p.frame ran
    → Runs cycles f (apply_write val p).frame ran
unfolding apply_write
apply_write-Runs cycles ran f val p r =
    let mode : ℕ = if has_bits val 0x80 then 1 else 0 in
    let lt : mode < 2 = ground arith in
    let started = started-Runs cycles ran f p.frame mode lt r in
    elim (Bool-cases (mode == 1 && p.frame.block_counter == 0)) [
      | inl e ↦ rw e (same-Runs cycles ran f _ _ (refl, refl, refl, refl) started)
      | inr e ↦ rw e (same-Runs cycles ran f _ _ (refl, refl, refl, refl) started)
    ]

-- What a pending write does to the sequencer, and the end of the frames' block.
delayed_write-Runs :
    (cycles ran : ℕ) (f : FrameCounter) (o : Option ℕ) (p : Progress)
    → Runs cycles f p.frame ran
    → Runs cycles f (delayed_write o p).frame ran
unfolding delayed_write
delayed_write-Runs cycles ran f none p r = r
delayed_write-Runs cycles ran f (some val) p r =
    let p1 : Progress = record p {
      frame = record p.frame { write_delay = sub_u8 p.frame.write_delay 1 };
    } in
    let r1 = same-Runs cycles ran f p.frame p1.frame (refl, refl, refl, refl) r in
    elim (Bool-cases (sub_u8 p.frame.write_delay 1 == 0)) [
      | inl e ↦ rw e (apply_write-Runs cycles ran f val p1 r1)
      | inr e ↦ rw e r1
    ]

delayed_write-cycles_ran :
    (o : Option ℕ) (p : Progress) → (delayed_write o p).cycles_ran ≡ p.cycles_ran
unfolding delayed_write apply_write
delayed_write-cycles_ran none p = refl
delayed_write-cycles_ran (some val) p =
    let mode : ℕ = if has_bits val 0x80 then 1 else 0 in
    elim (Bool-cases (sub_u8 p.frame.write_delay 1 == 0)) [
      | inl e ↦ elim (Bool-cases (mode == 1 && p.frame.block_counter == 0)) [
        | inl h ↦ rw (e, h) refl
        | inr h ↦ rw (e, h) refl
      ]
      | inr e ↦ rw e refl
    ]

-- A call of the sequencer runs at most the cycles that it is given, and it runs one at least or
-- leaves a step behind.
pub clock_with-Runs :
    (cycles : ℕ) (f : FrameCounter) (l : Lines)
    → 0 < cycles
    → cycles ≤ 10000
    → IsBounded f
    → Runs cycles f (clock_with cycles f l).frame (clock_with cycles f l).cycles_ran
unfolding clock_with unblock
clock_with-Runs cycles f l pos le b =
    let p = advance cycles f l in
    let q = delayed_write p.frame.write_buffer p in
    let r =
      delayed_write-Runs cycles p.cycles_ran f p.frame.write_buffer p
        (advance-Runs cycles f l pos le b) in
    let ran : q.cycles_ran ≡ p.cycles_ran = delayed_write-cycles_ran p.frame.write_buffer p in
    elim (Bool-cases (ltb 0 q.frame.block_counter)) [
      | inl e ↦ rw (e, ran) (same-Runs cycles p.cycles_ran f q.frame _ (refl, refl, refl, refl) r)
      | inr e ↦ rw (e, ran) r
    ]
