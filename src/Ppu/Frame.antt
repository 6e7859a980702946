-- ===== src/Ppu/Frame.antt =====
-- tetanes-core/src/ppu/frame.rs: the picture, a list of its pixels line by line, and the number of
-- the frame.
use tetanes.Base.{ℕ, ◌+◌, ◌*◌, List, replicate, length, get_or, set, ◌<<<◌, u32}
use tetanes.Common.{ResetKind}

pub record Frame : Type 0 where
  pub count : ℕ
  pub buffer : List ℕ

abbrev pub size : ℕ
size = 256 * 240

unfoldable pub new : Frame
new = record { count = 0; buffer = replicate size 0 }

unfoldable pub increment : Frame → Frame
increment f = record f { count = u32 (f.count + 1) }

unfoldable pub pixel : ℕ → ℕ → Frame → ℕ
pixel x y f = get_or f.buffer (x + (y <<< 8)) 0

unfoldable pub set_pixel : ℕ → ℕ → ℕ → Frame → Frame
set_pixel x y color f = record f { buffer = set f.buffer (x + (y <<< 8)) color }

-- The table of colors is a file of the build.
unfoldable pub pixel_brightness : (ℕ → ℕ) → ℕ → ℕ → Frame → ℕ
unfolding pixel
pixel_brightness ntsc_palette x y f =
    let index = pixel x y f * 3 in
    ntsc_palette index + ntsc_palette (index + 1) + ntsc_palette (index + 2)

unfoldable pub number : Frame → ℕ
number f = f.count

unfoldable pub reset : ResetKind → Frame → Frame
reset kind f = record { count = 0; buffer = replicate (length f.buffer) 0 }
