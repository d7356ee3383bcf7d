-- ===== src/Tty/Input.antt =====
-- What the line discipline keeps: the lines that are announced are in the ring.
use stanix.Base.{
  ℕ, ◌+◌, ◌-◌, ◌≤◌, ◌<◌, ◌≡◌, refl, sym, ap, Bool, true, false, ◌&&◌, ◌||◌, Option, none, some,
  List, [], ◌∷◌, ◌++◌, min, leb, ◌==◌, if◌then◌else◌, Bool-cases, inl, inr, arith, length,
  length-append, length-tabulate, take, length-take,
}
use stanix.Errno.{Ret, ok}
use stanix.Pipe.{to_word}
use stanix.Ringbuf
use stanix.Ringbuf.{Ring}
use stanix.Ringbuf.Invariant.{IsValid, contents, write-IsValid}
use stanix.Ringbuf.Window.{window}
use stanix.Ringbuf.Refine.{write_lem}
use stanix.Tty.{
  Tty, canon_size, lines_size, typed, no_fault, echoed, belled, rubbed, send_written,
  canon_send_line, add_char, erase_char, canonical, raw_written, raw_mode, input_char, input_some,
  input, translate, is_control_char,
}

abbrev pub sum : List ℕ → ℕ
sum [] = 0
sum (n ∷ ns) = n + sum ns

-- The ring is valid, the buffers are not overrun, and the announced lines together are no longer than
-- what the ring holds.
pub record IsKept (ring : Ring) (canon : List ℕ) (lines : List ℕ) : Type 0 where
  pub valid : IsValid ring
  pub small : length canon ≤ canon_size
  pub announced : length lines ≤ lines_size
  pub held : sum lines ≤ ring.read_available

abbrev pub IsTty : Tty → Type 0
IsTty tty = IsKept tty.input_buffer tty.canon_buf tty.lines

sum-append : (ns : List ℕ) (n : ℕ) → sum (ns ++ (n ∷ [])) ≡ sum ns + n
sum-append [] n = omega arith
sum-append (m ∷ ns) n = let rest = sum-append ns n in omega arith

pub length-typed : (canon : List ℕ) → length (typed canon) ≡ length canon
length-typed [] = refl
length-typed (c ∷ canon) =
    let rest = length-typed canon in let more = length-append (typed canon) (c ∷ []) in omega arith

-- A write to the ring of what it is given.
abbrev Written : Ring → (count : ℕ) → Ret × Ring → Type 0
Written r count (ret, r') =
    (n : ℕ) × (ret ≡ ok n) × (n ≤ count) × IsValid r' × (r'.read_available ≡ r.read_available + n)

ring-Written :
    (r : Ring) (src : List ℕ) (count : ℕ)
    → IsValid r
    → count ≡ length src
    → Written r count (Ringbuf.write no_fault r src count)
ring-Written r src count v h =
    let (result, held) = write_lem no_fault v (λ o k. refl) src count (omega arith) in
    let n = min count (r.buffer_size - r.read_available) in
    let r' = (Ringbuf.write no_fault r src count).1 in
    let total : length (contents r') ≡ length (contents r ++ take n src) = ap length held in
    let new =
      length-tabulate {0} r'.read_available (window r'.buffer r'.buffer_size r'.read_offset) in
    let old = length-tabulate {0} r.read_available (window r.buffer r.buffer_size r.read_offset) in
    let both = length-append (contents r) (take n src) in
    let part = length-take n src in
    (n, result, omega arith, write-IsValid no_fault src count v, omega arith)

send_written-IsTty :
    (tty : Tty) (out : Ret × Ring)
    → IsTty tty
    → Written tty.input_buffer (length tty.canon_buf) out
    → IsTty (send_written out tty)
unfolding send_written to_word
send_written-IsTty tty (ret, ring) v (n, result, few, w, more) =
    rw result (elim (Bool-cases (leb lines_size (length tty.lines))) [
      | inl e ↦ rw e (record {
        valid = w;
        small = v.small;
        announced = v.announced;
        held = omega (arith, v.held);
      })
      | inr e ↦
          let rest = sum-append tty.lines n in
          let longer = length-append tty.lines (n ∷ []) in
          let space : length tty.lines < 256 = ground (arith, e) in
          rw e (record {
            valid = w;
            small = omega arith;
            announced = omega arith;
            held = omega (arith, v.held);
          })
    ])

canon_send_line-IsTty : (tty : Tty) → IsTty tty → IsTty (canon_send_line tty)
unfolding canon_send_line
canon_send_line-IsTty tty v =
    send_written-IsTty tty
      (Ringbuf.write no_fault tty.input_buffer (typed tty.canon_buf) (length tty.canon_buf)) v
      (ring-Written tty.input_buffer (typed tty.canon_buf) (length tty.canon_buf) v.valid
        (sym (length-typed tty.canon_buf)))

added-IsTty : (b : Bool) (tty : Tty) → IsTty tty → IsTty (if b then canon_send_line tty else tty)
added-IsTty true tty v = canon_send_line-IsTty tty v
added-IsTty false tty v = v

add_char-IsTty :
    (iscntrl : ℕ → Bool) (c : ℕ) (tty : Tty) → IsTty tty → IsTty (add_char iscntrl c tty)
unfolding add_char
add_char-IsTty iscntrl c tty v = elim (Bool-cases (leb canon_size (length tty.canon_buf))) [
  | inl e ↦ rw e (added-IsTty ((c == 10) || is_control_char c tty.termios.veol) (belled tty) v)
  | inr e ↦
      let space : length tty.canon_buf < 512 = ground (arith, e) in
      let next : Tty = echoed iscntrl c (record tty { canon_buf = c ∷ tty.canon_buf }) in
      rw e (
        added-IsTty ((c == 10) || is_control_char c tty.termios.veol) next
          (record { valid = v.valid; small = omega arith; announced = v.announced; held = v.held }))
]

length-rubbed : (canon : List ℕ) → length (rubbed canon) ≤ length canon
length-rubbed [] = omega arith
length-rubbed (c ∷ canon) = omega arith

erase_char-IsTty :
    (iscntrl : ℕ → Bool) (c : ℕ) (tty : Tty) → IsTty tty → IsTty (erase_char iscntrl c tty)
unfolding erase_char
erase_char-IsTty iscntrl c tty v = elim (Bool-cases (length tty.canon_buf == 0)) [
  | inl e ↦ rw e v
  | inr e ↦
      let less = length-rubbed tty.canon_buf in
      rw e (record {
        valid = v.valid;
        small = omega (arith, v.small);
        announced = v.announced;
        held = v.held;
      })
]

canonical-IsTty :
    (iscntrl : ℕ → Bool) (c : ℕ) (tty : Tty) → IsTty tty → IsTty (canonical iscntrl c tty)
unfolding canonical
canonical-IsTty iscntrl c tty v = elim (Bool-cases (is_control_char c tty.termios.verase)) [
  | inl e ↦ rw e (erase_char-IsTty iscntrl c tty v)
  | inr e ↦ rw e (elim (Bool-cases (is_control_char c tty.termios.vkill)) [
    | inl e' ↦
        rw e'
          (record { valid = v.valid; small = omega arith; announced = v.announced; held = v.held })
    | inr e' ↦ rw e' (elim (Bool-cases (is_control_char c tty.termios.veof)) [
      | inl e'' ↦ rw e'' (canon_send_line-IsTty tty v)
      | inr e'' ↦ rw e'' (add_char-IsTty iscntrl c tty v)
    ])
  ])
]

raw_written-IsTty :
    (tty : Tty) (out : Ret × Ring)
    → IsTty tty
    → Written tty.input_buffer 1 out
    → IsTty (raw_written out tty)
unfolding raw_written to_word
raw_written-IsTty tty (ret, ring) v (n, result, few, w, more) =
    rw result (elim (Bool-cases (n == 0)) [
      | inl e ↦ rw e (record {
        valid = w;
        small = v.small;
        announced = v.announced;
        held = omega (arith, v.held);
      })
      | inr e ↦ rw e (record {
        valid = w;
        small = v.small;
        announced = v.announced;
        held = omega (arith, v.held);
      })
    ])

raw_mode-IsTty :
    (iscntrl : ℕ → Bool) (c : ℕ) (tty : Tty) → IsTty tty → IsTty (raw_mode iscntrl c tty)
unfolding raw_mode
raw_mode-IsTty iscntrl c tty v =
    raw_written-IsTty (echoed iscntrl c tty) (Ringbuf.write no_fault tty.input_buffer (c ∷ []) 1) v
      (ring-Written tty.input_buffer (c ∷ []) 1 v.valid refl)

input_char-IsTty :
    (iscntrl : ℕ → Bool) (c : ℕ) (tty : Tty) → IsTty tty → IsTty (input_char iscntrl c tty)
unfolding input_char
input_char-IsTty iscntrl c tty v =
    elim (Bool-cases (tty.termios.isig && is_control_char c tty.termios.vintr)) [
      | inl e ↦ rw e v
      | inr e ↦ rw e (elim (Bool-cases (tty.termios.isig && is_control_char c tty.termios.vquit)) [
        | inl f ↦ rw f v
        | inr f ↦
            rw f (elim (Bool-cases (tty.termios.isig && is_control_char c tty.termios.vsusp)) [
              | inl g ↦ rw g v
              | inr g ↦ rw g (elim (Bool-cases tty.termios.icanon) [
                | inl h ↦ simp h (canonical-IsTty iscntrl c tty v)
                | inr h ↦ simp h (raw_mode-IsTty iscntrl c tty v)
              ])
            ])
      ])
    ]

-- A character of input, whatever the modes: the ring stays valid, the line being edited and the list
-- of announced lines stay within their arrays, and the announced lines together stay no longer than
-- what the ring holds.
pub input-IsTty : (iscntrl : ℕ → Bool) (c : ℕ) (tty : Tty) → IsTty tty → IsTty (input iscntrl c tty)
unfolding input input_some
input-IsTty iscntrl c tty v = go (translate tty.termios c)
  where
    go : (o : Option ℕ) → IsTty (input_some iscntrl o tty)
    go none = v
    go (some d) = input_char-IsTty iscntrl d tty v
