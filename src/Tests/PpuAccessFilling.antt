-- ===== src/Tests/PpuAccessFilling.antt =====
-- Inputs for the theorems of Ppu.Access.Filling.
use tetanes.Base.{
  List, ℕ, ◌+◌, ◌%◌, ◌≡◌, refl, arith, if◌then◌else◌, ltb, length, get_or, [], ◌∷◌,
  length-replicate,
}
use tetanes.Ppu.Mask
use tetanes.Ppu.Access.{is_using_oam, oam_byte}
use tetanes.Ppu.Access.Filling.{write_all, write_all-fills}
use tetanes.Tests.Picture.{picture}

write_all-fills_example :
    let vals : List ℕ = 10 ∷ 20 ∷ 30 ∷ [] in
    let at = (picture.oamaddr + 2) % 256 in
    (get_or (write_all vals picture).oamdata at 0 ≡ (
      if ltb 2 (length vals) then oam_byte at (get_or vals 2 0) else get_or picture.oamdata at 0))
    × ((write_all vals picture).oamaddr ≡ (picture.oamaddr + length vals) % 256)
unfolding is_using_oam Mask.new
write_all-fills_example =
    write_all-fills (10 ∷ 20 ∷ 30 ∷ []) picture 2 refl (omega arith)
      (length-replicate {A = ℕ} 256 0xff) (omega arith) (omega arith)
