-- ===== src/Errno.antt =====
-- The error numbers that the modelled functions return, and their result: C's `ssize_t ret`,
-- negative for an error.
use stanix.Base.{ℕ}

pub data Errno : Type 0 where
  efault enomem eagain eintr epipe einval eilseq eio enospc enoent esrch : Errno

pub data Ret : Type 0 where
  ok : ℕ → Ret
  err : Errno → Ret

-- The same for a function that stores what it makes.
pub data Result {ℓ} (A : Type ℓ) : Type ℓ where
  done : A → Result A
  fail : Errno → Result A

infixl 5 ◌>>=◌
abbrev pub ◌>>=◌ {ℓ κ} : {A : Type ℓ} {B : Type κ} → Result A → (A → Result B) → Result B
done a >>= f = f a
fail e >>= f = fail e
