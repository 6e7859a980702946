-- ===== src/Ppu/Evaluation/Reading.antt =====
-- Where a read of OAMDATA panics, of the positions that the sprite evaluation leaves.
use tetanes.Base.{
  ℕ, zero, suc, List, [], ◌∷◌, refl, ◌≤◌, ◌<◌, ◌≡◌, arith, Bool, ◌&&◌, if◌then◌else◌, leb, ◌==◌,
  Bool-cases, inl, inr, none, some, length, get_or, get_elem?, get_elem?-get_or,
}
use tetanes.Mapper.{within}
use tetanes.Ppu.State.{Ppu, visible_scanline_end, spr_fetch_start, spr_fetch_end}
use tetanes.Ppu.Access.{peek_oamdata}
use tetanes.Ppu.Evaluation.Bounds.{IsValid}

elem_at-end : (xs : List ℕ) (i : ℕ) → length xs ≤ i → get_elem? xs i ≡ none
elem_at-end [] i le = refl
elem_at-end (x ∷ xs) zero le = absurd (omega arith)
elem_at-end (x ∷ xs) (suc i) le = elem_at-end xs i (omega arith)

module _ {M : Type 0} where
  -- The sprites of a rendered line are fetched.
  abbrev pub fetching : Ppu M → Bool
  fetching p =
      leb p.scanline visible_scanline_end
      && (p.mask.rendering_enabled && within p.cycle spr_fetch_start spr_fetch_end)

  -- Of the positions that the evaluation keeps, a read of OAMDATA panics exactly where the sprites of
  -- a rendered line are fetched and the line's evaluation has filled the secondary memory; in every
  -- other case it gives a byte of the memory that it reads.
  pub peek_oamdata-bounds :
      (p : Ppu M)
      → IsValid p
      → peek_oamdata p ≡ (
          if fetching p
          then (if p.secondary_oamaddr == 32
              then none
              else some (get_or p.secondary_oamdata p.secondary_oamaddr 0))
          else some (get_or p.oamdata p.oamaddr 0))
  unfolding peek_oamdata
  peek_oamdata-bounds p v = elim (Bool-cases (fetching p)) [
    | inl f ↦ elim (Bool-cases (p.secondary_oamaddr == 32)) [
      | inl e ↦
          let out : length p.secondary_oamdata ≤ p.secondary_oamaddr =
            ground (arith, v.secondary_size) in
          rw (f, e) (elem_at-end p.secondary_oamdata p.secondary_oamaddr out)
      | inr e ↦
          let le = v.secondary_le in
          let inside : p.secondary_oamaddr < length p.secondary_oamdata =
            ground (arith, v.secondary_size) in
          rw (f, e) (get_elem?-get_or p.secondary_oamdata p.secondary_oamaddr 0 inside)
    ]
    | inr f ↦
        let inside : p.oamaddr < length p.oamdata = omega (arith, v.oam_size, v.oamaddr_lt) in
        rw f (get_elem?-get_or p.oamdata p.oamaddr 0 inside)
  ]
