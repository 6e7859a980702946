-- ===== src/Bus/WorkRam.antt =====
-- The work RAM of the bus: its mirrors, and that it is the memory that the CPU's stack needs.
use tetanes.Base.{
  get_or-set, ℕ, ◌%◌, ◌<◌, ◌≡◌, ◌≢◌, refl, sym, ◌∙◌, ap, arith, true, false, ◌||◌, if◌then◌else◌,
  if-each, ◌==◌, Bool-cases, inl, inr, get_or, length, bit_and,
}
use tetanes.Base.Bits.{bit_and_mask}
use tetanes.Cpu.Lines.{Lines}
use tetanes.Cpu.Flow.StackRam.{StackRam}
use tetanes.Mapper.{within}
use tetanes.Bus.{Bus, Parts, Sized, set_byte}
use tetanes.Bus.Reads.{read, read_direct, end_read, read_cart, read_apu_status}
use tetanes.Bus.Writes.{write, write_direct, end_write}
use tetanes.Bus.Access.{bus_ops, clock, clock_to}

module _ {P A I : Type 0} (parts : Parts P A I) where
  wram_byte : (addr : ℕ) (b : Bus P A I) → ℕ
  wram_byte addr b = get_or b.wram.bytes addr 0

  read_direct-wram :
      (addr : ℕ) (b : Bus P A I) (l : Lines)
      → addr < 0x800
      → read_direct parts addr b l ≡ (get_or b.wram.bytes addr 0, b, l)
  unfolding read_direct
  read_direct-wram addr b l lt =
      let inside : within addr 0x0000 0x07ff ≡ true = ground arith in rw inside refl

  -- The four images of the work RAM below $2000 read alike.
  pub read-wram :
      (addr : ℕ) (b : Bus P A I) (l : Lines)
      → addr < 0x2000
      → (read parts addr b l).0 ≡ get_or b.wram.bytes (addr % 0x800) 0
  unfolding read end_read
  read-wram addr b l lt = elim (Bool-cases (within addr 0x0800 0x1fff)) [
    | inl h ↦
        let at : bit_and addr 0x07ff ≡ addr % 0x800 = bit_and_mask 11 addr in
        rw (h, at, read_direct-wram (addr % 0x800) b l (omega arith)) refl
    | inr h ↦
        let low : addr < 0x800 = ground arith in
        let at : addr % 0x800 ≡ addr = omega arith in
        let ppu : within addr 0x2008 0x3fff ≡ false = ground arith in
        rw (h, ppu, at, read_direct-wram addr b l low) refl
  ]

  -- A read of any address leaves the work RAM as it is.
  read_direct-keeps :
      (addr : ℕ) (b : Bus P A I) (l : Lines) → (read_direct parts addr b l).1.wram ≡ b.wram
  unfolding read_direct read_cart read_apu_status
  read_direct-keeps addr b l =
      let Same : ℕ × Bus P A I × Lines → Type 0 = λ r. r.1.wram ≡ b.wram in
      if-each Same (within addr 0x0000 0x07ff) refl (
        if-each Same (within addr 0x4020 0xffff) refl (
          if-each Same (addr == 0x2002) refl (
            if-each Same (addr == 0x2004) refl (
              if-each Same (addr == 0x2007) refl (
                if-each Same (addr == 0x4015) refl (
                  if-each Same (addr == 0x4016) refl (
                    if-each Same (addr == 0x4017) refl (
                      if-each Same
                        ((addr == 0x2000)
                          || (addr == 0x2001)
                          || (addr == 0x2003)
                          || (addr == 0x2005)
                          || (addr == 0x2006))
                        refl refl))))))))

  pub read-keeps : (addr : ℕ) (b : Bus P A I) (l : Lines) → (read parts addr b l).1.wram ≡ b.wram
  unfolding read end_read
  read-keeps addr b l =
      let Same : ℕ × Bus P A I × Lines → Type 0 = λ r. r.1.wram ≡ b.wram in
      if-each Same (within addr 0x0800 0x1fff) (read_direct-keeps (bit_and addr 0x07ff) b l) (
        if-each Same (within addr 0x2008 0x3fff) (read_direct-keeps (bit_and addr 0x2007) b l)
          (read_direct-keeps addr b l))

  write_direct-wram :
      (addr val : ℕ) (b : Bus P A I) (l : Lines)
      → addr < 0x800
      → write_direct parts addr val b l ≡ (record b { wram = set_byte b.wram addr val }, l)
  unfolding write_direct
  write_direct-wram addr val b l lt =
      let inside : within addr 0x0000 0x07ff ≡ true = ground arith in rw inside refl

  -- A write below $2000 sets the byte that all four images show, and as long as the board only
  -- watches the bus, nothing else.
  pub write-wram :
      (addr val : ℕ) (b : Bus P A I) (l : Lines)
      → addr < 0x2000
      → write parts addr val b l
        ≡ end_write parts
            (addr % 0x800)
            val
            (record b { wram = set_byte b.wram (addr % 0x800) val }, l)
  unfolding write
  write-wram addr val b l lt =
      let at = bit_and_mask 11 addr in
      let mirror : (if within addr 0x0800 0x1fff
            then bit_and addr 0x07ff
            else if within addr 0x2008 0x3fff
            then bit_and addr 0x2007
            else addr)
          ≡ addr % 0x800 =
        ground arith in
      ap (λ a. end_write parts a val (write_direct parts a val b l)) mirror
      ∙ ap (end_write parts (addr % 0x800) val)
          (write_direct-wram (addr % 0x800) val b l (omega arith))

  -- A byte written below $2000 is read back from every image of its cell, and every other address
  -- below $2000 reads as before.
  pub write-read :
      (addr val at : ℕ) (b : Bus P A I) (l l' : Lines)
      → addr < 0x2000
      → at < 0x2000
      → (read parts at (write parts addr val b l).0 l').0
        ≡ (if addr % 0x800 == at % 0x800 then val else (read parts at b l').0)
  unfolding end_write
  write-read addr val at b l l' lt lt' =
      let cell = addr % 0x800 in
      let fits : cell < length b.wram.bytes = omega (arith, b.wram.size_eq) in
      ap (λ (r : Bus P A I × Lines). (read parts at r.0 l').0) (write-wram addr val b l lt)
      ∙ read-wram at _ l' lt'
      ∙ get_or-set b.wram.bytes cell (at % 0x800) val 0 fits
      ∙ elim (Bool-cases (cell == at % 0x800)) [
        | inl e ↦ rw e refl
        | inr e ↦ rw e (sym (read-wram at b l' lt'))
      ]

pub if_other : (a c x y : ℕ) → c ≢ a → (if a == c then x else y) ≡ y
if_other a c x y ne = ground arith

pub if_self : (a x y : ℕ) → (if a == a then x else y) ≡ x
if_self a x y = ground arith

module _ {P A I : Type 0} (parts : Parts P A I) where
  -- What a write to the stack's page leaves in a cell.
  pub write-cell :
      (addr val : ℕ) (b : Bus P A I) (l : Lines) (a : ℕ)
      → addr < 512
      → get_or (write parts addr val b l).0.wram.bytes a 0
        ≡ (if addr == a then val else get_or b.wram.bytes a 0)
  unfolding end_write
  write-cell addr val b l a hi =
      let at : addr % 0x800 ≡ addr = omega arith in
      let fits : addr % 0x800 < length b.wram.bytes = omega (arith, b.wram.size_eq) in
      ap (λ (r : Bus P A I × Lines). get_or r.0.wram.bytes a 0)
        (write-wram parts addr val b l (omega arith))
      ∙ get_or-set b.wram.bytes (addr % 0x800) a val 0 fits
      ∙ ap (λ c. if c == a then val else get_or b.wram.bytes a 0) at

  -- Whatever its parts do, the bus is the memory that the CPU's stack needs: the bytes of its page
  -- are cells that writes set one by one and that nothing else changes.
  unfoldable pub bus_ops-StackRam : StackRam (bus_ops parts)
  unfolding bus_ops clock clock_to end_write
  bus_ops-StackRam = record {
    cell = λ b a. get_or b.wram.bytes a 0;
    read_cell = λ addr b l lo hi.
        read-wram parts addr b l (omega arith) ∙ ap (λ a. get_or b.wram.bytes a 0) (omega arith);
    read_keeps =
        λ addr b l a. ap (λ (w : Sized 0x800). get_or w.bytes a 0) (read-keeps parts addr b l);
    write_cell = λ addr val b l lo hi.
        write-cell addr val b l addr hi ∙ if_self addr val (get_or b.wram.bytes addr 0);
    write_keeps = λ addr val b l lo hi a ne.
        write-cell addr val b l a hi ∙ if_other addr a val (get_or b.wram.bytes a 0) ne;
    clock_keeps = λ b l a. refl;
    clock_to_keeps = λ t b l a. refl;
    sprite_keeps = λ val b l a. refl;
    load_keeps = λ val b l a. refl;
  }
