-- ===== src/Ppu/Access/Filling.antt =====
-- What a run of writes to OAMDATA leaves in the sprite memory.
use tetanes.Base.{
  get_or-set, get_or-set_self, length-set, ℕ, suc, zero, ◌+◌, ◌-◌, ◌%◌, ◌≤◌, ◌<◌, ◌≡◌, refl, sym,
  ◌∙◌, ap, arith, false, if◌then◌else◌, ltb, ◌==◌, Bool-cases, inl, inr, List, [], ◌∷◌, length,
  get_or, set, u8,
}
use tetanes.Ppu.State.{Ppu}
use tetanes.Ppu.Access.{is_using_oam, oam_byte, write_oamdata}

module _ {M : Type 0} where
  -- The writes of some bytes to OAMDATA, one after the other.
  abbrev pub write_all : List ℕ → Ppu M → Ppu M
  write_all [] p = p
  write_all (val ∷ vals) p = write_all vals (write_oamdata val p)

  -- A write while the PPU does not use its sprite memory.
  abbrev put : ℕ → Ppu M → Ppu M
  put val p = record p {
    open_bus = val;
    oamdata = set p.oamdata p.oamaddr (oam_byte p.oamaddr val);
    oamaddr = u8 (p.oamaddr + 1);
  }

  abbrev put_all : List ℕ → Ppu M → Ppu M
  put_all [] p = p
  put_all (val ∷ vals) p = put_all vals (put val p)

  write_all-put_all :
      (vals : List ℕ) (p : Ppu M) → is_using_oam p ≡ false → write_all vals p ≡ put_all vals p
  unfolding write_oamdata is_using_oam
  write_all-put_all [] p h = refl
  write_all-put_all (val ∷ vals) p h =
      let one : write_oamdata val p ≡ put val p = rw h refl in
      ap (write_all vals) one ∙ write_all-put_all vals (put val p) h

  put_all-skips :
      (vals : List ℕ) (p : Ppu M) (d : ℕ)
      → p.oamaddr < 256
      → length p.oamdata ≡ 256
      → length vals ≤ d
      → d < 256
      → get_or (put_all vals p).oamdata ((p.oamaddr + d) % 256) 0
        ≡ get_or p.oamdata ((p.oamaddr + d) % 256) 0
  put_all-skips [] p d lt size le fits = refl
  put_all-skips (val ∷ vals) p d lt size le fits =
      let at = (p.oamaddr + d) % 256 in
      let same : (u8 (p.oamaddr + 1) + (d - 1)) % 256 ≡ at = omega arith in
      let apart : (p.oamaddr == at) ≡ false = ground arith in
      let size1 : length (put val p).oamdata ≡ 256 =
        length-set p.oamdata p.oamaddr (oam_byte p.oamaddr val) ∙ size in
      ap (λ i. get_or (put_all vals (put val p)).oamdata i 0) (sym same)
      ∙ put_all-skips vals (put val p) (d - 1) (omega arith) size1 (omega arith) (omega arith)
      ∙ ap (λ i. get_or (put val p).oamdata i 0) same
      ∙ get_or-set p.oamdata p.oamaddr at (oam_byte p.oamaddr val) 0 (omega arith)
      ∙ rw apart refl

  put_all-stores :
      (vals : List ℕ) (p : Ppu M) (i : ℕ)
      → p.oamaddr < 256
      → length p.oamdata ≡ 256
      → length vals ≤ 256
      → i < length vals
      → get_or (put_all vals p).oamdata ((p.oamaddr + i) % 256) 0
        ≡ oam_byte ((p.oamaddr + i) % 256) (get_or vals i 0)
  put_all-stores [] p i lt size le inside = absurd (omega arith)
  put_all-stores (val ∷ vals) p zero lt size le inside =
      let here : (p.oamaddr + 0) % 256 ≡ p.oamaddr = omega arith in
      let last : (u8 (p.oamaddr + 1) + 255) % 256 ≡ p.oamaddr = omega arith in
      let size1 : length (put val p).oamdata ≡ 256 =
        length-set p.oamdata p.oamaddr (oam_byte p.oamaddr val) ∙ size in
      let kept : get_or (put_all vals (put val p)).oamdata p.oamaddr 0
          ≡ get_or (put val p).oamdata p.oamaddr 0 =
        ap (λ j. get_or (put_all vals (put val p)).oamdata j 0) (sym last)
        ∙ put_all-skips vals (put val p) 255 (omega arith) size1 (omega arith) (omega arith)
        ∙ ap (λ j. get_or (put val p).oamdata j 0) last in
      ap (λ j. get_or (put_all vals (put val p)).oamdata j 0) here
      ∙ kept
      ∙ get_or-set_self p.oamdata p.oamaddr (oam_byte p.oamaddr val) 0 (omega arith)
      ∙ ap (λ j. oam_byte j val) (sym here)
  put_all-stores (val ∷ vals) p (suc i) lt size le inside =
      let at = (p.oamaddr + suc i) % 256 in
      let same : (u8 (p.oamaddr + 1) + i) % 256 ≡ at = omega arith in
      let size1 : length (put val p).oamdata ≡ 256 =
        length-set p.oamdata p.oamaddr (oam_byte p.oamaddr val) ∙ size in
      ap (λ j. get_or (put_all vals (put val p)).oamdata j 0) (sym same)
      ∙ put_all-stores vals (put val p) i (omega arith) size1 (omega arith) (omega arith)
      ∙ ap (λ j. oam_byte j (get_or vals i 0)) same

  put_all-oamaddr :
      (vals : List ℕ) (p : Ppu M)
      → p.oamaddr < 256
      → (put_all vals p).oamaddr ≡ (p.oamaddr + length vals) % 256
  put_all-oamaddr [] p lt = omega arith
  put_all-oamaddr (val ∷ vals) p lt =
      let next : (u8 (p.oamaddr + 1) + length vals) % 256 ≡ (p.oamaddr + suc (length vals)) % 256 =
        omega arith in
      put_all-oamaddr vals (put val p) (omega arith) ∙ next

  -- While the PPU does not use its sprite memory, at most 256 writes to OAMDATA store their bytes
  -- from OAMADDR on, around the end of the memory, without the bits that a sprite does not have;
  -- they leave the other bytes, and OAMADDR behind the last.
  pub write_all-fills :
      (vals : List ℕ) (p : Ppu M) (i : ℕ)
      → is_using_oam p ≡ false
      → p.oamaddr < 256
      → length p.oamdata ≡ 256
      → length vals ≤ 256
      → i < 256
      → let at = (p.oamaddr + i) % 256 in
        (get_or (write_all vals p).oamdata at 0
          ≡ (if ltb i (length vals) then oam_byte at (get_or vals i 0) else get_or p.oamdata at 0))
        × ((write_all vals p).oamaddr ≡ (p.oamaddr + length vals) % 256)
  write_all-fills vals p i h lt size le fits =
      let at = (p.oamaddr + i) % 256 in
      let puts : write_all vals p ≡ put_all vals p = write_all-put_all vals p h in
      (
        ap (λ (q : Ppu M). get_or q.oamdata at 0) puts ∙ elim (Bool-cases (ltb i (length vals))) [
          | inl e ↦ rw e (put_all-stores vals p i lt size le (ground arith))
          | inr e ↦ rw e (put_all-skips vals p i lt size (ground arith) fits)
        ],
        ap (λ (q : Ppu M). q.oamaddr) puts ∙ put_all-oamaddr vals p lt,
      )
