-- ===== src/Ppu/Registers.antt =====
-- PPUCTRL, PPUMASK and PPUSTATUS: what a written byte means, bit by bit.
use tetanes.Base.{
  ℕ, ◌+◌, ◌*◌, ◌/◌, ◌%◌, ◌<◌, ◌≡◌, refl, Bool, true, false, ◌||◌, not, arith, if◌then◌else◌, ◌==◌,
  ◌↔◌, ◌^◌, ◌&&◌, ltb, ==_iff, all_below, all_below_sound, List, [], ◌∷◌,
}
use tetanes.Base.Bits.{bit_and_mask, bit_and_bit}
use tetanes.Common.{NesRegion, auto, pal, dendy, ResetKind, soft, hard}
use tetanes.Ppu.Ctrl
use tetanes.Ppu.Ctrl.{Ctrl}
use tetanes.Ppu.Mask
use tetanes.Ppu.Mask.{Mask}
use tetanes.Ppu.Status
use tetanes.Ppu.Status.{Status}

-- Bit `k` of a number is set.
abbrev pub bit : ℕ → ℕ → Bool
bit k val = val / 2 ^ k % 2 == 1

-- A write of PPUCTRL: the nametable lies at 0x2000 plus 0x400 times the lower two bits, VRAM
-- addresses go on by 32 or 1, patterns come from 0x1000 or 0, sprites are 16 or 8 lines high, and
-- the top two bits are the master select and the NMI enable.
pub ctrl_write-fields :
    (val : ℕ) (c : Ctrl)
    → let c' = Ctrl.write val c in
      (c'.nametable_addr ≡ 0x2000 + Ctrl.nametable_select c' * 0x400)
      × (Ctrl.nametable_select c' ≡ val % 4)
      × (c'.vram_increment ≡ (if bit 2 val then 32 else 1))
      × (c'.spr_select ≡ (if bit 3 val then 0x1000 else 0))
      × (c'.bg_select ≡ (if bit 4 val then 0x1000 else 0))
      × (c'.spr_height ≡ (if bit 5 val then 16 else 8))
      × (c'.master_slave ≡ (if bit 6 val then 1 else 0))
      × (c'.nmi_enabled ≡ bit 7 val)
unfolding Ctrl.write Ctrl.nametable_select
ctrl_write-fields val c = ground (
  arith,
  bit_and_mask 2 val,
  bit_and_bit 2 val,
  bit_and_bit 3 val,
  bit_and_bit 4 val,
  bit_and_bit 5 val,
  bit_and_bit 6 val,
  bit_and_bit 7 val,
)

-- The colours that are emphasised, red lowest: PAL and Dendy exchange red and green.
abbrev pub emphasised : NesRegion → ℕ → ℕ
emphasised pal val =
    (if bit 6 val then 0x40 else 0)
    + (if bit 5 val then 0x80 else 0)
    + (if bit 7 val then 0x100 else 0)
emphasised dendy val =
    (if bit 6 val then 0x40 else 0)
    + (if bit 5 val then 0x80 else 0)
    + (if bit 7 val then 0x100 else 0)
emphasised _ val =
    (if bit 5 val then 0x40 else 0)
    + (if bit 6 val then 0x80 else 0)
    + (if bit 7 val then 0x100 else 0)

abbrev emphasis_ok : NesRegion → ℕ → Bool
emphasis_ok region val = Mask.emphasis_bits region val * 2 == emphasised region val

emphasis_table : (region : NesRegion) → all_below 256 (emphasis_ok region) ≡ true
unfolding Mask.emphasis_bits all_below
emphasis_table auto = refl
emphasis_table _ = refl

emphasis_bits_lem :
    (region : NesRegion) (val : ℕ)
    → val < 256
    → Mask.emphasis_bits region val * 2 ≡ emphasised region val
emphasis_bits_lem region val h =
    (==_iff _ _).0 (all_below_sound 256 (emphasis_ok region) val (emphasis_table region) h)

-- A write of PPUMASK: rendering is on exactly when the background or the sprites are shown, and
-- the emphasis has the bit of each emphasised colour, red and green exchanged on PAL and Dendy.
pub mask_write-fields :
    (val : ℕ) (m : Mask)
    → val < 256
    → let m' = Mask.write val m in
      (m'.rendering_enabled ≡ (bit 3 val || bit 4 val))
      × (m'.emphasis ≡ emphasised m.region val)
      × (m'.grayscale ≡ (if bit 0 val then 0x30 else 0x3f))
      × (m'.show_left_bg ≡ bit 1 val)
      × (m'.show_left_spr ≡ bit 2 val)
      × (m'.region ≡ m.region)
unfolding Mask.write
mask_write-fields val m h = (
  ground (arith, bit_and_bit 3 val, bit_and_bit 4 val),
  emphasis_bits_lem m.region val h,
  ground (arith, bit_and_bit 0 val),
  ground (arith, bit_and_bit 1 val),
  ground (arith, bit_and_bit 2 val),
  refl,
)

-- The copies of the flags of PPUSTATUS agree with its byte.
pub record IsSynced (s : Status) : Type 0 where
  pub overflow_eq : s.spr_overflow ≡ bit 5 s.bits
  pub zero_hit_eq : s.spr_zero_hit ≡ bit 6 s.bits
  pub vblank_eq : s.in_vblank ≡ bit 7 s.bits
  pub bits_lt : s.bits < 256

abbrev same : Bool → Bool → Bool
same true b = b
same false b = not b

-- Setting flag `k` of a byte changes that bit alone.
abbrev put_ok : ℕ → Bool → ℕ → Bool
put_ok k b bits =
    let r = Status.put_flag (2 ^ k) b bits in
    same (bit 5 r) (if k == 5 then b else bit 5 bits)
    && (same (bit 6 r) (if k == 6 then b else bit 6 bits)
        && (same (bit 7 r) (if k == 7 then b else bit 7 bits) && ltb r 256))

put_table :
    (b : Bool)
    → all_below 256 (put_ok 5 b) && (all_below 256 (put_ok 6 b) && all_below 256 (put_ok 7 b))
      ≡ true
unfolding all_below
put_table true = refl
put_table false = refl

module _ (b : Bool) (bits : ℕ) (h : bits < 256) where
  put_five : put_ok 5 b bits ≡ true
  put_five = all_below_sound 256 (put_ok 5 b) bits (ground (arith, put_table b)) h

  put_six : put_ok 6 b bits ≡ true
  put_six = all_below_sound 256 (put_ok 6 b) bits (ground (arith, put_table b)) h

  put_seven : put_ok 7 b bits ≡ true
  put_seven = all_below_sound 256 (put_ok 7 b) bits (ground (arith, put_table b)) h

-- What the PPU does to the register while it runs.
pub data StatusOp : Type 0 where
  overflow_op zero_hit_op vblank_op : Bool → StatusOp
  reset_vblank_op : StatusOp
  reset_op : ResetKind → StatusOp

abbrev pub apply : StatusOp → Status → Status
apply (overflow_op b) s = Status.set_spr_overflow b s
apply (zero_hit_op b) s = Status.set_spr_zero_hit b s
apply (vblank_op b) s = Status.set_in_vblank b s
apply reset_vblank_op s = Status.reset_in_vblank s
apply (reset_op k) s = Status.reset k s

abbrev pub run : List StatusOp → Status → Status
run [] s = s
run (op ∷ ops) s = run ops (apply op s)

overflow-IsSynced : (b : Bool) (s : Status) → IsSynced s → IsSynced (Status.set_spr_overflow b s)
unfolding Status.set_spr_overflow
overflow-IsSynced b s v = ground (arith, put_five b s.bits v.bits_lt)

zero_hit-IsSynced : (b : Bool) (s : Status) → IsSynced s → IsSynced (Status.set_spr_zero_hit b s)
unfolding Status.set_spr_zero_hit
zero_hit-IsSynced b s v = ground (arith, put_six b s.bits v.bits_lt)

vblank-IsSynced : (b : Bool) (s : Status) → IsSynced s → IsSynced (Status.set_in_vblank b s)
unfolding Status.set_in_vblank
vblank-IsSynced b s v = ground (arith, put_seven b s.bits v.bits_lt)

apply-IsSynced : (op : StatusOp) (s : Status) → IsSynced s → IsSynced (apply op s)
unfolding Status.reset Status.reset_in_vblank
apply-IsSynced (overflow_op b) s v = overflow-IsSynced b s v
apply-IsSynced (zero_hit_op b) s v = zero_hit-IsSynced b s v
apply-IsSynced (vblank_op b) s v = vblank-IsSynced b s v
apply-IsSynced reset_vblank_op s v = unfold Status.set_in_vblank in vblank-IsSynced false s v
apply-IsSynced (reset_op soft) s v = v
apply-IsSynced (reset_op hard) s v =
    overflow-IsSynced false _ (zero_hit-IsSynced false _ (vblank-IsSynced false s v))

run-IsSynced : (ops : List StatusOp) (s : Status) → IsSynced s → IsSynced (run ops s)
run-IsSynced [] s v = v
run-IsSynced (op ∷ ops) s v = run-IsSynced ops (apply op s) (apply-IsSynced op s v)

-- Through everything that the PPU does to PPUSTATUS after power-on, the three flags that it keeps
-- beside the byte agree with bits 5, 6 and 7 of the byte that a read returns.
pub status_run-IsSynced :
    (ops : List StatusOp)
    → let s = run ops Status.new in
      (s.spr_overflow ≡ bit 5 (Status.read s))
      × (s.spr_zero_hit ≡ bit 6 (Status.read s))
      × (s.in_vblank ≡ bit 7 (Status.read s))
unfolding Status.new Status.read
status_run-IsSynced ops =
    let v = run-IsSynced ops Status.new (ground arith) in
    (v.overflow_eq, v.zero_hit_eq, v.vblank_eq)

-- `write` itself takes the overflow flag from the bit of the sprite 0 hit: behind it the flag
-- agrees with bit 5 of the byte exactly when bits 5 and 6 of the value are the same.
status_write-overflow :
    (val : ℕ) (s : Status)
    → ((Status.write val s).spr_overflow ≡ bit 5 (Status.read (Status.write val s)))
      ↔ (bit 6 val ≡ bit 5 val)
unfolding Status.write Status.read
status_write-overflow val s = ground (arith, bit_and_bit 6 val)
