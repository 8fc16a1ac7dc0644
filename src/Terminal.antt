-- ===== src/Terminal.antt =====
-- src/terminal.c: the text terminal on the bootloader's frame buffer. The frame buffer stands in
-- the memory `mem`, a byte at an address; the font is a file that the bootloader has loaded, and
-- is never written.
pub mod Draw
pub mod Print
pub mod Input
pub mod Scroll
pub mod Lines
pub mod Kept
pub mod InScreen
pub mod Edit
pub mod Enter
pub mod Timed
pub mod Typed
pub mod StaysIn
pub mod Room
mod Tests
use bloreos.Base.{
  ℕ, zero, suc, ◌+◌, ◌-◌, ◌*◌, ◌/◌, ◌^◌, Bool, true, false, List, [], ◌∷◌, ◌==◌, ◌&&◌,
  if◌then◌else◌, Ram, u32, u64, put_bytes,
}
use bloreos.Atomic.{Outcome, returns, halts}
use bloreos.MemOps.{memset, memmove}

-- `struct limine_framebuffer`; the pitch is in bytes, a pixel has four.
pub record Frame : Type 0 where
  pub address : ℕ
  pub width : ℕ
  pub height : ℕ
  pub pitch : ℕ

-- The header of a PSF1 file, and the bytes after it.
pub record Font : Type 0 where
  pub magic : ℕ
  pub char_height : ℕ
  pub glyph_data : Ram

-- The globals. `input_str` is the array of 256 bytes, from index 0 on.
pub record Terminal : Type 0 where
  pub mem : Ram
  pub frame : Frame
  pub font : Font
  pub max_rows : ℕ
  pub max_cols : ℕ
  pub glyph_width : ℕ
  pub glyph_height : ℕ
  pub is_ready : Bool
  pub fgcolor : ℕ
  pub bgcolor : ℕ
  pub render_x : ℕ
  pub render_y : ℕ
  pub input_render_x : ℕ
  pub input_render_y : ℕ
  pub cursor_x : ℕ
  pub cursor_y : ℕ
  pub input_str : Ram
  pub cursor_lock : ℕ
  pub cursor_visible : Bool

abbrev pub glyph_padding : ℕ
glyph_padding = 1

abbrev pub term_default_fgcolor : ℕ
term_default_fgcolor = 0xcccccc

abbrev pub term_cursor_color : ℕ
term_cursor_color = 0xffffff

unfoldable pub term_fgcolor : ℕ → Terminal → Terminal
term_fgcolor color t = record t { fgcolor = color }

unfoldable pub term_bgcolor : ℕ → Terminal → Terminal
term_bgcolor color t = record t { bgcolor = color }

-- An index of 32 bits into the array of pixels.
unfoldable pub fbindex : Frame → ℕ → ℕ → ℕ
fbindex fb x y = u32 (y * (fb.pitch / 4) + x)

-- &fb[i]
abbrev pub pixel_at : Frame → ℕ → ℕ
pixel_at fb i = fb.address + 4 * i

-- (char*)&fb[last] - (char*)&fb[first]
abbrev pub span : ℕ → ℕ → ℕ
span first last = u64 (4 * last + 2 ^ 64 - 4 * first)

-- memset(&fb[first], 0x00, (char*)&fb[last] - (char*)&fb[first])
unfoldable pub blank : Frame → ℕ → ℕ → Ram → Ram
blank fb first last m = memset m (pixel_at fb first) 0 (span first last)

unfoldable pub clear_screen : Terminal → Terminal
unfolding fbindex blank
clear_screen t = record t {
  mem =
      blank t.frame (fbindex t.frame 0 0) (fbindex t.frame (u32 t.frame.width) (u32 t.frame.height))
        t.mem;
}

unfoldable pub put_pixel : Frame → ℕ → ℕ → ℕ → Ram → Ram
unfolding fbindex put_bytes
put_pixel fb x y color m = put_bytes 4 m (pixel_at fb (fbindex fb x y)) color

-- _shift_screen_up; the end of the screen is the same index in both halves.
unfoldable pub shift_screen_up : Terminal → Terminal
unfolding fbindex blank
shift_screen_up t =
    let fb = t.frame in
    let start_pixel_index = fbindex fb 0 t.glyph_height in
    let end_pixel_index = fbindex fb (u32 fb.width) (u32 fb.height) in
    let moved =
      memmove t.mem fb.address (pixel_at fb start_pixel_index)
        (span start_pixel_index end_pixel_index) in
    let blank_start = fbindex fb 0 (u32 (fb.height + 2 ^ 64 - t.glyph_height)) in
    record t { mem = blank fb blank_start end_pixel_index moved }

-- A module of the bootloader: the first bytes of its path and the file, read as a font.
pub record Module : Type 0 where
  pub path : List ℕ
  pub file : Font

-- memcmp("/Font.psf", path, 9) == 0
unfoldable pub starts_with : List ℕ → List ℕ → Bool
starts_with [] path = true
starts_with (c ∷ s) [] = false
starts_with (c ∷ s) (d ∷ path) = (c == d) && starts_with s path

abbrev pub font_path : List ℕ
font_path = b'/' ∷ b'F' ∷ b'o' ∷ b'n' ∷ b't' ∷ b'.' ∷ b'p' ∷ b's' ∷ b'f' ∷ []

-- _load_font: the first module of that name, which must have the magic number of version 1. The
-- result tells whether there is one.
unfoldable pub load_font : List Module → Terminal → Outcome Terminal Bool
unfolding starts_with
load_font [] t = returns t false
load_font (m ∷ ms) t =
    let rest = load_font ms t in
    let loaded = record t { font = m.file } in
    if starts_with font_path m.path
    then (if m.file.magic == 0x0436 then returns loaded true else halts loaded)
    else rest
