-- ===== src/Pipe/Invariant.antt =====
-- What holds of a pipe between calls, and what the code relies on when a wait ends.
use stanix.Base.{◌≡◌, Bool, true, some, inl, inr, Bool-cases, subst}
use stanix.Ringbuf.Invariant.{IsValid}
use stanix.Pipe.{Pipe, Wait, sleep_on}

pub record IsPipe (p : Pipe) : Type 0 where
  pub valid : IsValid p.ring
  pub size : p.ring.buffer_size ≡ 4096

-- A wait ends with the lock held, the condition true and the pipe in order.
abbrev pub Wakes : Wait → Type 0
Wakes wait =
    (cond : Pipe → Bool) (p p' : Pipe) → wait cond p ≡ some p' → IsPipe p' × (cond p' ≡ true)

pub sleep_on-Wakes :
    (cond : Pipe → Bool) (wait : Wait) (p p' : Pipe)
    → Wakes wait
    → IsPipe p
    → sleep_on cond wait p ≡ some p'
    → IsPipe p' × (cond p' ≡ true)
unfolding sleep_on
sleep_on-Wakes cond wait p p' w v e = elim (Bool-cases (cond p)) [
  | inl c ↦ subst (λ q. IsPipe q × (cond q ≡ true)) (cc) (v, c)
  | inr c ↦ w cond p p' (rw c at e)
]
