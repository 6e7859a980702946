-- ===== src/Ppu/Pixels/Priority.antt =====
-- Which sprite a pixel shows.
use tetanes.Base.{
  ℕ, ◌+◌, ◌-◌, ◌≡◌, refl, sym, ◌∙◌, ap, arith, Bool, true, false, not, ◌&&◌, ◌||◌, if◌then◌else◌,
  ltb, leb, ◌==◌, Bool-cases, inl, inr, List, [], ◌∷◌, ◌++◌, take, length, Option, none, some, u8,
}
use tetanes.Ppu.Status.{set_spr_zero_hit}
use tetanes.Ppu.Sprite.{Sprite}
use tetanes.Ppu.State.{Ppu}
use tetanes.Ppu.Pixels.{
  spr_color, column, bg_color, hit_zero, scan_sprites, bg_palette, sprites_shown, or_background,
  pixel_palette,
}

-- A sprite has a color at a column that is not transparent.
abbrev pub shows : ℕ → Sprite → Bool
shows at s = not (ltb at s.x) && (leb (at - s.x) 7 && not (spr_color (at - s.x) s == 0))

abbrev pub none_shows : ℕ → List Sprite → Bool
none_shows at [] = true
none_shows at (s ∷ rest) = not (shows at s) && none_shows at rest

module _ {M : Type 0} where
  -- What a sprite that shows makes of the background.
  abbrev over : ℕ → Sprite → Ppu M → Option ℕ
  over bg s p =
      if (bg == 0) || not s.bg_priority
      then some (u8 (s.palette + spr_color (column p - s.x) s))
      else none

  scan-hidden :
      (i bg : ℕ) (s : Sprite) (rest : List Sprite) (p : Ppu M)
      → shows (column p) s ≡ false
      → scan_sprites i bg (s ∷ rest) p ≡ scan_sprites (i + 1) bg rest p
  unfolding scan_sprites
  scan-hidden i bg s rest p h = elim (Bool-cases (ltb (column p) s.x)) [
    | inl e ↦ rw e refl
    | inr e ↦
        let clear : (leb (column p - s.x) 7 && not (spr_color (column p - s.x) s == 0)) ≡ false =
          ground arith in
        rw (e, clear) refl
  ]

  scan-shown :
      (i bg : ℕ) (s : Sprite) (rest : List Sprite) (p : Ppu M)
      → shows (column p) s ≡ true
      → scan_sprites i bg (s ∷ rest) p ≡ (over bg s p, hit_zero i bg p)
  unfolding scan_sprites
  scan-shown i bg s rest p h =
      let e : ltb (column p) s.x ≡ false = ground arith in
      let opaque : (leb (column p - s.x) 7 && not (spr_color (column p - s.x) s == 0)) ≡ true =
        ground arith in
      rw (e, opaque) refl

  scan-front :
      (front : List Sprite) (i bg : ℕ) (s : Sprite) (back : List Sprite) (p : Ppu M)
      → none_shows (column p) front ≡ true
      → shows (column p) s ≡ true
      → scan_sprites i bg (front ++ s ∷ back) p ≡ (over bg s p, hit_zero (i + length front) bg p)
  scan-front [] i bg s back p clear h =
      scan-shown i bg s back p h ∙ ap (λ j. (over bg s p, hit_zero j bg p)) (omega arith)
  scan-front (t ∷ front) i bg s back p clear h =
      let hidden : shows (column p) t ≡ false = ground arith in
      let rest : none_shows (column p) front ≡ true = ground arith in
      scan-hidden i bg t (front ++ s ∷ back) p hidden
      ∙ scan-front front (i + 1) bg s back p rest h
      ∙ ap (λ j. (over bg s p, hit_zero j bg p)) (omega arith)

  scan-none :
      (sprites : List Sprite) (i bg : ℕ) (p : Ppu M)
      → none_shows (column p) sprites ≡ true
      → scan_sprites i bg sprites p ≡ (none, p)
  unfolding scan_sprites
  scan-none [] i bg p clear = refl
  scan-none (s ∷ rest) i bg p clear =
      let hidden : shows (column p) s ≡ false = ground arith in
      let others : none_shows (column p) rest ≡ true = ground arith in
      scan-hidden i bg s rest p hidden ∙ scan-none rest (i + 1) bg p others

  -- What a hit of sprite zero takes besides its position in the line.
  abbrev can_hit : ℕ → Ppu M → Bool
  can_hit bg p =
      p.mask.rendering_enabled && (p.spr_zero_visible && (not (bg == 0) && not (column p == 255)))

  abbrev hits : ℕ → ℕ → Ppu M → Bool
  hits i bg p =
      (i == 0)
      && (p.mask.rendering_enabled
          && (not p.status.spr_zero_hit
              && (p.spr_zero_visible && (not (bg == 0) && not (column p == 255)))))

  bg_palette-hit_zero : (i bg : ℕ) (p : Ppu M) → bg_palette bg (hit_zero i bg p) ≡ bg_palette bg p
  unfolding hit_zero bg_palette
  bg_palette-hit_zero i bg p = elim (Bool-cases (hits i bg p)) [
    | inl e ↦ rw e refl
    | inr e ↦ rw e refl
  ]

  hit_zero-status :
      (i bg : ℕ) (p : Ppu M)
      → (hit_zero i bg p).status.spr_zero_hit
        ≡ (p.status.spr_zero_hit || ((i == 0) && can_hit bg p))
  unfolding hit_zero set_spr_zero_hit
  hit_zero-status i bg p = elim (Bool-cases (hits i bg p)) [
    | inl e ↦
        let some_hit : (p.status.spr_zero_hit || ((i == 0) && can_hit bg p)) ≡ true =
          ground arith in
        rw e (sym some_hit)
    | inr e ↦
        let same : (p.status.spr_zero_hit || ((i == 0) && can_hit bg p)) ≡ p.status.spr_zero_hit =
          ground arith in
        rw e (sym same)
  ]

  or_background-over :
      (bg i : ℕ) (s : Sprite) (p : Ppu M)
      → (or_background bg (over bg s p, hit_zero i bg p)).0 ≡ (
          if (bg == 0) || not s.bg_priority
          then u8 (s.palette + spr_color (column p - s.x) s)
          else bg_palette bg p)
  or_background-over bg i s p = elim (Bool-cases ((bg == 0) || not s.bg_priority)) [
    | inl e ↦ rw e refl
    | inr e ↦ rw e (bg_palette-hit_zero i bg p)
  ]

  or_background-state : (bg : ℕ) (r : Option ℕ × Ppu M) → (or_background bg r).1 ≡ r.1
  or_background-state bg (some entry, p) = refl
  or_background-state bg (none, p) = refl

  -- Sprites show at the pixel: the first of the line that has a color there decides. It shows over
  -- a transparent background, or if it does not stand behind it, else the background shows; and
  -- the hit of sprite zero is noted exactly if it is the first sprite of all, sprite zero is on the
  -- line, the background has a color, and the column is not the last.
  pub pixel_palette-front :
      (p : Ppu M) (front : List Sprite) (s : Sprite) (back : List Sprite)
      → sprites_shown p ≡ true
      → take p.spr_count p.sprites ≡ front ++ s ∷ back
      → none_shows (column p) front ≡ true
      → shows (column p) s ≡ true
      → let bg = bg_color p in
        ((pixel_palette p).0 ≡ (
          if (bg == 0) || not s.bg_priority
          then u8 (s.palette + spr_color (column p - s.x) s)
          else bg_palette bg p))
        × ((pixel_palette p).1.status.spr_zero_hit ≡ (
            p.status.spr_zero_hit
            || ((length front == 0)
                && (p.mask.rendering_enabled
                    && (p.spr_zero_visible && (not (bg == 0) && not (column p == 255)))))))
  unfolding pixel_palette
  pixel_palette-front p front s back shown split clear h =
      let bg = bg_color p in
      let scanned : scan_sprites 0 bg (take p.spr_count p.sprites) p
          ≡ (over bg s p, hit_zero (length front) bg p) =
        ap (λ sprites. scan_sprites 0 bg sprites p) split
        ∙ scan-front front 0 bg s back p clear h
        ∙ ap (λ j. (over bg s p, hit_zero j bg p)) (omega arith) in
      let chosen : pixel_palette p ≡ or_background bg (over bg s p, hit_zero (length front) bg p) =
        rw shown (ap (or_background bg) scanned) in
      (
        ap (λ (x : ℕ × Ppu M). x.0) chosen ∙ or_background-over bg (length front) s p,
        ap (λ (x : ℕ × Ppu M). x.1.status.spr_zero_hit) chosen
            ∙ ap (λ (q : Ppu M). q.status.spr_zero_hit)
                (or_background-state bg (over bg s p, hit_zero (length front) bg p))
            ∙ hit_zero-status (length front) bg p,
      )

  -- No sprite of the line has a color at the pixel: the background shows, and nothing is noted.
  pixel_palette-background :
      (p : Ppu M)
      → none_shows (column p) (take p.spr_count p.sprites) ≡ true
      → pixel_palette p ≡ (bg_palette (bg_color p) p, p)
  unfolding pixel_palette
  pixel_palette-background p clear =
      let bg = bg_color p in
      elim (Bool-cases (sprites_shown p)) [
        | inl e ↦ rw e (ap (or_background bg) (scan-none (take p.spr_count p.sprites) 0 bg p clear))
        | inr e ↦ rw e refl
      ]
