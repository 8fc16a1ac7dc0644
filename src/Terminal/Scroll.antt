-- ===== src/Terminal/Scroll.antt =====
-- What _shift_screen_up and _clear_screen of src/terminal.c leave in the frame buffer.
use bloreos.Base.{
  ℕ, ◌+◌, ◌-◌, ◌*◌, ◌/◌, ◌^◌, ◌≤◌, ◌<◌, ◌≡◌, refl, true, false, ltb, if◌then◌else◌, Ram, u32, arith,
  Bool-cases, inl, inr,
}
use bloreos.MemOps.{memset, memmove}
use bloreos.MemOps.Copy.{memmove_lem, memset_lem}
use bloreos.Terminal.{Frame, Terminal, fbindex, pixel_at, span, blank, shift_screen_up}

-- The number of pixels of the buffer from one row to the next.
abbrev pub stride : Frame → ℕ
stride fb = fb.pitch / 4

-- A frame whose pixels, and `width` more, have an index of 32 bits.
pub record Fits (fb : Frame) : Type 0 where
  pub narrow : fb.width ≤ stride fb
  pub low : fb.height < 2 ^ 32
  pub indexed : fb.height * stride fb + fb.width < 2 ^ 32

span_lem : (first last : ℕ) → first ≤ last → last < 2 ^ 32 → span first last ≡ 4 * last - 4 * first
span_lem first last h small = omega arith

-- The bytes before pixel `last`, after those from pixel `up` on have moved to the front and the
-- pixels from `kept` on are blanked.
moved_lem :
    (m : Ram) (a up kept last o : ℕ)
    → up + kept ≤ last
    → last < 2 ^ 32
    → o < 4 * last
    → memset (memmove m a (a + 4 * up) (span up last)) (a + 4 * kept) 0 (span kept last) (a + o)
      ≡ (if ltb o (4 * kept) then m (a + 4 * up + o) else 0)
moved_lem m a up kept last o h small inside =
    let e : span up last ≡ 4 * last - 4 * up = span_lem up last (omega arith) small in
    let f : span kept last ≡ 4 * last - 4 * kept = span_lem kept last (omega arith) small in
    let offset : a + o - a ≡ o = omega arith in
    ground (
      arith,
      e,
      f,
      offset,
      memset_lem (memmove m a (a + 4 * up) (span up last)) (a + 4 * kept) 0 (span kept last)
          (a + o),
      memmove_lem m a (a + 4 * up) (span up last) (a + o),
    )

row_lem : (P x y n : ℕ) → x < P → y < n → y * P + x < n * P
row_lem P x y n h l = grind arith

rows_lem : (P y n : ℕ) → y ≤ n → y * P ≤ n * P
rows_lem P y n h = grind arith

split_rows : (P g n : ℕ) → g ≤ n → g * P + (n - g) * P ≡ n * P
split_rows P g n h = grind arith

-- The pixel (x, y) where the frame's pixels have an index of 32 bits.
index_lem :
    (fb : Frame) (x y : ℕ)
    → Fits fb
    → y * stride fb + x ≤ fb.height * stride fb + fb.width
    → fbindex fb x y ≡ y * stride fb + x
unfolding fbindex
index_lem fb x y f h = omega (arith, f.indexed, h)

end_lem :
    (fb : Frame)
    → Fits fb
    → fbindex fb (u32 fb.width) (u32 fb.height) ≡ fb.height * stride fb + fb.width
end_lem fb f =
    let w : u32 fb.width ≡ fb.width = omega (arith, f.indexed) in
    let h : u32 fb.height ≡ fb.height = omega (arith, f.low) in
    rw (w, h) (index_lem fb fb.width fb.height f (omega arith))

-- Scrolling, by the pixels' indices: the end is `width` pixels behind the last row.
shift_pixels :
    (t : Terminal) (o : ℕ)
    → Fits t.frame
    → t.glyph_height ≤ t.frame.height
    → o < 4 * (t.frame.height * stride t.frame + t.frame.width)
    → (shift_screen_up t).mem (t.frame.address + o) ≡ (
        if ltb o (4 * ((t.frame.height - t.glyph_height) * stride t.frame))
        then t.mem (t.frame.address + 4 * (t.glyph_height * stride t.frame) + o)
        else 0)
unfolding shift_screen_up blank
shift_pixels t o f g inside =
    let fb = t.frame in
    let P = stride fb in
    let parts = split_rows P t.glyph_height fb.height g in
    let y : u32 (fb.height + 2 ^ 64 - t.glyph_height) ≡ fb.height - t.glyph_height =
      omega (arith, f.low, g) in
    let first = index_lem fb 0 t.glyph_height f (omega (arith, parts)) in
    let kept = index_lem fb 0 (fb.height - t.glyph_height) f (omega (arith, parts)) in
    let no : (n : ℕ) → n + 0 ≡ n = λ n. omega arith in
    rw
      (y, first, kept, end_lem fb f, no (t.glyph_height * P), no ((fb.height - t.glyph_height) * P))
      (moved_lem t.mem fb.address (t.glyph_height * P) ((fb.height - t.glyph_height) * P)
        (fb.height * P + fb.width) o (omega (arith, parts)) f.indexed inside)

-- Where the frame's pixels have an index of 32 bits and a line of text is not higher than the
-- frame, scrolling leaves in each byte of a pixel on the screen what stood a line of text further
-- down, and zero in the last line.
pub shift_screen_up_lem :
    (t : Terminal) (x y k : ℕ)
    → Fits t.frame
    → t.glyph_height ≤ t.frame.height
    → x < t.frame.width
    → y < t.frame.height
    → k < 4
    → (shift_screen_up t).mem (pixel_at t.frame (fbindex t.frame x y) + k) ≡ (
        if ltb (y + t.glyph_height) t.frame.height
        then t.mem (pixel_at t.frame (fbindex t.frame x (y + t.glyph_height)) + k)
        else 0)
shift_screen_up_lem t x y k f g hx hy hk =
    let fb = t.frame in
    let gh = t.glyph_height in
    let P = stride fb in
    let o = 4 * (y * P + x) + k in
    let parts = split_rows P gh fb.height g in
    let in_frame = row_lem P x y fb.height (omega (arith, f.narrow, hx)) hy in
    let here = index_lem fb x y f (omega (arith, in_frame)) in
    let place : pixel_at fb (y * P + x) + k ≡ fb.address + o = omega arith in
    let e = shift_pixels t o f g (omega (arith, in_frame)) in
    elim (Bool-cases (ltb (y + gh) fb.height)) [
      | inl above ↦
          let up : y + gh < fb.height = ground (arith, above) in
          let row = row_lem P x (y + gh) fb.height (omega (arith, f.narrow, hx)) up in
          let split : (y + gh) * P ≡ y * P + gh * P = grind arith in
          let row' =
            row_lem P x y (fb.height - gh) (omega (arith, f.narrow, hx)) (omega (arith, up)) in
          let there = index_lem fb x (y + gh) f (omega (arith, row)) in
          let before : ltb o (4 * ((fb.height - gh) * P)) ≡ true = ground (arith, row') in
          let from : fb.address + 4 * (gh * P) + o ≡ pixel_at fb ((y + gh) * P + x) + k =
            omega (arith, split) in
          rw (above, here, place, e, before, from, there) refl
      | inr last ↦
          let down : fb.height ≤ y + gh = ground (arith, last) in
          let row = rows_lem P (fb.height - gh) y (omega (arith, down)) in
          let behind : ltb o (4 * ((fb.height - gh) * P)) ≡ false = ground (arith, row) in
          rw (last, here, place, e, behind) refl
    ]

-- Under the same conditions scrolling also writes zero behind the frame's last row: to as many
-- pixels as a row has.
pub shift_screen_up-overrun :
    (t : Terminal) (x k : ℕ)
    → Fits t.frame
    → t.glyph_height ≤ t.frame.height
    → x < t.frame.width
    → k < 4
    → (shift_screen_up t).mem (pixel_at t.frame (t.frame.height * stride t.frame + x) + k) ≡ 0
shift_screen_up-overrun t x k f g hx hk =
    let parts =
      rows_lem (stride t.frame) (t.frame.height - t.glyph_height) t.frame.height (omega arith) in
    let o = 4 * (t.frame.height * stride t.frame + x) + k in
    let place : pixel_at t.frame (t.frame.height * stride t.frame + x) + k ≡ t.frame.address + o =
      omega arith in
    let e = shift_pixels t o f g (omega arith) in
    let behind : ltb o (4 * ((t.frame.height - t.glyph_height) * stride t.frame)) ≡ false =
      ground (arith, parts) in
    rw (place, e, behind) refl
