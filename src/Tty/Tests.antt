-- ===== src/Tty/Tests.antt =====
-- The line discipline at concrete values.
use stanix.Base.{ℕ, Bool, true, false, [], ◌∷◌, arith, replicate, ltb}
use stanix.Ringbuf.{empty_ring}
use stanix.Ringbuf.Invariant.{empty_ring-IsValid}
use stanix.Tty.{Tty, Termios, input}
use stanix.Tty.Input.{IsTty, input-IsTty}

abbrev cooked : Termios
cooked = record {
  inlcr = false;
  igncr = false;
  icrnl = true;
  iuclc = false;
  istrip = false;
  imaxbel = false;
  opost = true;
  olcuc = false;
  onlcr = true;
  ocrnl = false;
  onocr = false;
  onlret = false;
  isig = true;
  icanon = true;
  echo = true;
  echoe = true;
  echok = true;
  echoctl = true;
  echonl = false;
  vintr = 3;
  vquit = 28;
  vsusp = 26;
  verase = 127;
  vkill = 21;
  veof = 4;
  veol = 255;
  vmin = 1;
}

abbrev is_cntrl : ℕ → Bool
is_cntrl c = ltb c 32

abbrev terminal : Tty
terminal = record {
  termios = cooked;
  screen = record { out = []; column = 0 };
  input_buffer = empty_ring (replicate 16 0) 16;
  canon_buf = 104 ∷ [];
  lines = [];
  reader_queue = [];
  writer_queue = [];
  signals = [];
  unplugged = false;
}

input-IsTty_example : IsTty (input is_cntrl 13 terminal)
input-IsTty_example = input-IsTty is_cntrl 13 terminal (record {
  valid = empty_ring-IsValid (replicate 16 0) (ground arith) (ground arith);
  small = ground arith;
  announced = ground arith;
  held = ground arith;
})
