-- ===== src/Word.antt =====
-- 64-bit unsigned arithmetic (`size_t`, `uintptr_t`): it wraps modulo 2 ^ 64.
use stanix.Base.{ℕ, ◌+◌, ◌-◌, ◌%◌, ◌^◌}

abbrev pub word_mod : ℕ
word_mod = 2 ^ 64

abbrev pub add_size : ℕ → ℕ → ℕ
add_size a b = (a + b) % 2 ^ 64

-- For words `a` and `b`: the modulus is added first, since `-` on ℕ stops at 0.
abbrev pub sub_size : ℕ → ℕ → ℕ
sub_size a b = (a + 2 ^ 64 - b) % 2 ^ 64
