-- ===== src/Tty/Editing.antt =====
-- Editing a line.
use stanix.Base.{ℕ, ◌<◌, ◌≡◌, refl, Bool, true, false, ◌∷◌, leb, ◌==◌, arith, length}
use stanix.Tty.{Tty, canonical, add_char, erase_char, canon_size, is_control_char}

-- In canonical mode, of a character that is no control character of a line, does not end it, and
-- finds room in it: after the character and then the erase character the line, the announced lines
-- and the ring are as before.
pub erase-add_char :
    (iscntrl : ℕ → Bool) (c erase : ℕ) (tty : Tty)
    → length tty.canon_buf < canon_size
    → is_control_char erase tty.termios.verase ≡ true
    → is_control_char c tty.termios.verase ≡ false
    → is_control_char c tty.termios.vkill ≡ false
    → is_control_char c tty.termios.veof ≡ false
    → is_control_char c tty.termios.veol ≡ false
    → (c == 10) ≡ false
    → let after = canonical iscntrl erase (canonical iscntrl c tty) in
      (after.canon_buf ≡ tty.canon_buf)
      × (after.lines ≡ tty.lines)
      × (after.input_buffer ≡ tty.input_buffer)
unfolding canonical add_char erase_char
erase-add_char iscntrl c erase tty space e h k f l nl =
    let room : leb 512 (length tty.canon_buf) ≡ false = ground arith in
    let some_left : (length (c ∷ tty.canon_buf) == 0) ≡ false = ground arith in
    rw (h, k, f, l, nl, room, e, some_left) (refl, refl, refl)
