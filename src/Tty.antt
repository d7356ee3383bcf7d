-- ===== src/Tty.antt =====
-- kernel/drivers/tty.c: the line discipline of terminals. A character is its byte; `iscntrl` is an argument.
-- What the driver's `out` is given is a list. The lock makes each call one step; it is given up while
-- a signal is sent, and nothing else is assumed to happen then.
pub mod Input
pub mod Editing
mod Tests
use stanix.Base.{
  ℕ, ◌+◌, ◌-◌, ◌%◌, Bool, true, false, not, ◌&&◌, ◌||◌, Option, none, some, List, [], ◌∷◌, ◌++◌,
  ltb, leb, ◌==◌, if◌then◌else◌, length,
}
use stanix.Word.{add_size}
use stanix.Errno.{Ret, ok, err, eagain, eintr}
use stanix.Ringbuf.{Ring, Fault}
use stanix.Ringbuf
use stanix.Sleep.{Task, wakeup_queue}
use stanix.Pipe.{to_word}

-- `struct termios`: the flags that are used, and the control characters.
pub record Termios : Type 0 where
  pub inlcr : Bool
  pub igncr : Bool
  pub icrnl : Bool
  pub iuclc : Bool
  pub istrip : Bool
  pub imaxbel : Bool
  pub opost : Bool
  pub olcuc : Bool
  pub onlcr : Bool
  pub ocrnl : Bool
  pub onocr : Bool
  pub onlret : Bool
  pub isig : Bool
  pub icanon : Bool
  pub echo : Bool
  pub echoe : Bool
  pub echok : Bool
  pub echoctl : Bool
  pub echonl : Bool
  pub vintr : ℕ
  pub vquit : ℕ
  pub vsusp : ℕ
  pub verase : ℕ
  pub vkill : ℕ
  pub veof : ℕ
  pub veol : ℕ
  pub vmin : ℕ

-- What was sent to the driver, and the column.
pub record Screen : Type 0 where
  pub out : List ℕ
  pub column : ℕ

pub data Signal : Type 0 where
  sigint sigquit sigtstp : Signal

-- `tty_t`. The line being edited is `canon_buf` up to `canon_index`, its last character first.
pub record Tty : Type 0 where
  pub termios : Termios
  pub screen : Screen
  pub input_buffer : Ring
  pub canon_buf : List ℕ
  pub lines : List ℕ
  pub reader_queue : List Task
  pub writer_queue : List Task
  pub signals : List Signal
  pub unplugged : Bool

abbrev pub canon_size : ℕ
canon_size = 512

abbrev pub lines_size : ℕ
lines_size = 256

-- The end of `tty_output`, from OCRNL on.
pub output_end : Termios → ℕ → Screen → Screen
output_end t c0 s =
    let c = if t.opost && t.ocrnl && (c0 == 13) then 10 else c0 in
    if t.opost && t.onocr && (c == 13) && (s.column == 0) then s else record {
      out = s.out ++ (c ∷ []);
      column = if (c == 13) || (c == 10) && t.onlret then 0 else add_size s.column 1;
    }

-- `tty_output`: the carriage return in front of a newline goes through the same steps.
pub output : Termios → ℕ → Screen → Screen
output t c0 s =
    let c = if t.opost && t.olcuc && leb 97 c0 && leb c0 122 then c0 - 32 else c0 in
    output_end t c (if t.opost && t.onlcr && (c == 10) then output_end t 13 s else s)

-- `tty_max_bell`
pub max_bell : Termios → Screen → Screen
max_bell t s = if t.imaxbel then output t 7 s else s

abbrev rub_out : Termios → Screen → Screen
rub_out t s = output t 8 (output t 32 (output t 8 s))

-- `tty_erase`
pub erase : (iscntrl : ℕ → Bool) → Termios → ℕ → Screen → Screen
erase iscntrl t c s = if iscntrl c && t.echoctl then rub_out t (rub_out t s) else rub_out t s

-- A `char`, which is signed, against an unsigned control character.
abbrev pub is_control_char : ℕ → ℕ → Bool
is_control_char c cc = (c == cc) && ltb c 128

-- The byte in front of `canon_buf` counts as 0.
abbrev last_char : List ℕ → ℕ
last_char [] = 0
last_char (c ∷ canon) = c

-- The loop for VKILL returns after its first round.
abbrev erase_line : (iscntrl : ℕ → Bool) → Termios → List ℕ → Screen → Screen
erase_line iscntrl t [] s = s
erase_line iscntrl t (c ∷ canon) s = erase iscntrl t c s

-- `tty_echo`
pub echo_char : (iscntrl : ℕ → Bool) → Termios → (canon_buf : List ℕ) → ℕ → Screen → Screen
echo_char iscntrl t canon c s =
    if (c == 10) && t.echonl && t.icanon
    then output t c s
    else if not t.echo
    then s
    else if (c == 10) || (c == 9)
    then output t c s
    else if is_control_char c t.verase && t.echoe && t.icanon
    then erase iscntrl t (last_char canon) s
    else if is_control_char c t.vkill && t.echok && t.icanon
    then erase_line iscntrl t canon s
    else if iscntrl c && t.echoctl
    then output t ((c + 64) % 256) (output t 94 s)
    else output t c s

abbrev pub echoed : (iscntrl : ℕ → Bool) → ℕ → Tty → Tty
echoed iscntrl c tty = record tty {
  screen = echo_char iscntrl tty.termios tty.canon_buf c tty.screen;
}

abbrev pub belled : Tty → Tty
belled tty = record tty { screen = max_bell tty.termios tty.screen }

-- The characters in the order in which they were typed.
abbrev pub typed : List ℕ → List ℕ
typed [] = []
typed (c ∷ canon) = typed canon ++ (c ∷ [])

-- Kernel memory can be read.
abbrev pub no_fault : Fault
no_fault at size = false

-- The rest of `tty_canon_send_line`, after the characters went into the ring.
pub send_written : Ret × Ring → Tty → Tty
send_written (ret, ring) tty =
    let rung =
      if leb (length tty.canon_buf) (to_word ret)
      then tty.screen
      else max_bell tty.termios tty.screen in
    if leb lines_size (length tty.lines)
    then record tty { input_buffer = ring; screen = max_bell tty.termios rung }
    else record tty {
      input_buffer = ring;
      screen = rung;
      lines = tty.lines ++ (to_word ret ∷ []);
      canon_buf = [];
      reader_queue = (wakeup_queue tty.reader_queue 0).1;
    }

-- `tty_canon_send_line`
pub canon_send_line : Tty → Tty
canon_send_line tty =
    send_written
      (Ringbuf.write no_fault tty.input_buffer (typed tty.canon_buf) (length tty.canon_buf)) tty

-- The first half of `tty_input`: the flags of `c_iflag`; `none` is a character that is ignored.
pub translate : Termios → ℕ → Option ℕ
translate t c0 =
    let c1 = if t.inlcr && (c0 == 10) then 13 else c0 in
    if t.igncr && (c1 == 13)
    then none
    else (let c2 = if t.icrnl && (c1 == 13) then 10 else c1 in
        let c3 = if t.iuclc && leb 65 c2 && leb c2 90 then c2 + 32 else c2 in
        some (if t.istrip then c3 % 128 else c3))

-- A character of the line, which may end it.
pub add_char : (iscntrl : ℕ → Bool) → ℕ → Tty → Tty
add_char iscntrl c tty =
    let next =
      if leb canon_size (length tty.canon_buf)
      then belled tty
      else echoed iscntrl c (record tty { canon_buf = c ∷ tty.canon_buf }) in
    if (c == 10) || is_control_char c tty.termios.veol then canon_send_line next else next

-- Without its last character.
abbrev pub rubbed : List ℕ → List ℕ
rubbed [] = []
rubbed (c ∷ canon) = canon

pub erase_char : (iscntrl : ℕ → Bool) → ℕ → Tty → Tty
erase_char iscntrl c tty =
    if length tty.canon_buf == 0
    then tty
    else record (echoed iscntrl c tty) { canon_buf = rubbed tty.canon_buf }

-- Canonical mode in `tty_input`.
pub canonical : (iscntrl : ℕ → Bool) → ℕ → Tty → Tty
canonical iscntrl c tty =
    if is_control_char c tty.termios.verase
    then erase_char iscntrl c tty
    else if is_control_char c tty.termios.vkill
    then record (echoed iscntrl c tty) { canon_buf = [] }
    else if is_control_char c tty.termios.veof
    then canon_send_line tty
    else add_char iscntrl c tty

-- The end of `tty_input` in the other mode.
pub raw_written : Ret × Ring → Tty → Tty
raw_written (ret, ring) tty =
    if to_word ret == 0
    then belled (record tty { input_buffer = ring })
    else record tty { input_buffer = ring; reader_queue = (wakeup_queue tty.reader_queue 0).1 }

pub raw_mode : (iscntrl : ℕ → Bool) → ℕ → Tty → Tty
raw_mode iscntrl c tty =
    let next = echoed iscntrl c tty in
    raw_written (Ringbuf.write no_fault tty.input_buffer (c ∷ []) 1) next

abbrev pub signalled : (iscntrl : ℕ → Bool) → ℕ → Signal → Tty → Tty
signalled iscntrl c signal tty = record (echoed iscntrl c tty) {
  signals = tty.signals ++ (signal ∷ []);
}

-- The second half of `tty_input`, of the character that the first one made.
pub input_char : (iscntrl : ℕ → Bool) → ℕ → Tty → Tty
input_char iscntrl c tty =
    let t = tty.termios in
    if t.isig && is_control_char c t.vintr
    then signalled iscntrl c sigint tty
    else if t.isig && is_control_char c t.vquit
    then signalled iscntrl c sigquit tty
    else if t.isig && is_control_char c t.vsusp
    then signalled iscntrl c sigtstp tty
    else if t.icanon
    then canonical iscntrl c tty
    else raw_mode iscntrl c tty

pub input_some : (iscntrl : ℕ → Bool) → Option ℕ → Tty → Tty
input_some iscntrl none tty = tty
input_some iscntrl (some c) tty = input_char iscntrl c tty

-- `tty_input`
pub input : (iscntrl : ℕ → Bool) → ℕ → Tty → Tty
input iscntrl c tty = input_some iscntrl (translate tty.termios c) tty

-- `tty_add_input`
pub add_input : (iscntrl : ℕ → Bool) → List ℕ → Tty → Tty
add_input iscntrl [] tty = tty
add_input iscntrl (c ∷ buffer) tty = add_input iscntrl buffer (input iscntrl c tty)
