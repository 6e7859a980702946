-- ===== src/Tests/PpuEvaluationBounds.antt =====
-- Inputs for the theorems of Ppu.Evaluation.Bounds and Ppu.Evaluation.Reading.
use tetanes.Base.{ℕ, ◌≡◌, arith, length-replicate, if◌then◌else◌, ◌==◌, none, some, true, get_or}
use tetanes.Ppu.Mask
use tetanes.Ppu.State.{Ppu}
use tetanes.Ppu.Evaluation.{evaluate_sprites}
use tetanes.Ppu.Evaluation.Bounds.{IsValid, evaluate_sprites-IsValid}
use tetanes.Ppu.Evaluation.Reading.{fetching, peek_oamdata-bounds}
use tetanes.Ppu.Access.{peek_oamdata}
use tetanes.Tests.Picture.{picture}

abbrev picture-IsValid : IsValid picture
picture-IsValid = record {
  lo_lt = omega arith;
  hi_lt = omega arith;
  oamaddr_lt = omega arith;
  secondary_le = omega arith;
  count_le = omega arith;
  sprites_le = omega arith;
  oam_size = length-replicate {A = ℕ} 256 0xff;
  secondary_size = length-replicate {A = ℕ} 32 0xff;
}

evaluate_sprites-IsValid_example : IsValid (evaluate_sprites picture)
evaluate_sprites-IsValid_example = evaluate_sprites-IsValid picture picture-IsValid

-- The first of the cycles that fetch the sprites of a rendered line, behind eight sprites.
abbrev full_line : Ppu Unit
full_line = record picture {
  cycle = 257;
  secondary_oamaddr = 32;
  mask = record (Mask.new picture.region) { rendering_enabled = true };
}

abbrev full_line-IsValid : IsValid full_line
full_line-IsValid = record {
  lo_lt = omega arith;
  hi_lt = omega arith;
  oamaddr_lt = omega arith;
  secondary_le = omega arith;
  count_le = omega arith;
  sprites_le = omega arith;
  oam_size = length-replicate {A = ℕ} 256 0xff;
  secondary_size = length-replicate {A = ℕ} 32 0xff;
}

peek_oamdata-bounds_example : peek_oamdata full_line ≡ (
    if fetching full_line
    then (if full_line.secondary_oamaddr == 32
        then none
        else some (get_or full_line.secondary_oamdata full_line.secondary_oamaddr 0))
    else some (get_or full_line.oamdata full_line.oamaddr 0))
peek_oamdata-bounds_example = peek_oamdata-bounds full_line full_line-IsValid
