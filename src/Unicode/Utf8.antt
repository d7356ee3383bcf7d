-- ===== src/Unicode/Utf8.antt =====
-- UTF-8: the decoder and the encoder are inverse to each other.
use stanix.Base.{
  ℕ, ◌+◌, ◌/◌, ◌%◌, ◌≤◌, ◌<◌, ◌≡◌, ◌⊎◌, inl, inr, Bool-cases, true, false, List, [], ◌∷◌, ◌++◌, leb,
  length, take, arith,
}
use stanix.Base.Int.{pos}
use stanix.Errno.{Result, done, fail, einval}
use stanix.Unicode.{
  Decoded, decode_two, decode_three, decode_four, utf8_decode_char, is_surrogate, encode_code,
  utf8_encode_char,
}

-- A Unicode scalar value: a code point that is no surrogate.
abbrev pub IsScalar : ℕ → Type 0
IsScalar c = (c < 0xd800) ⊎ ((0xdfff < c) × (c ≤ 0x10ffff))

-- What the encoder makes of `c`, the decoder reads back, whatever follows.
abbrev pub Decodes : ℕ → Result (List ℕ) → Type 0
Decodes c (fail e) = ⊥
Decodes c (done bytes) = (rest : List ℕ) → utf8_decode_char (bytes ++ rest) ≡ done (c, length bytes)

one : (c : ℕ) (rest : List ℕ) → c ≤ 0x7f → utf8_decode_char (c ∷ rest) ≡ done (c, 1)
unfolding utf8_decode_char
one c rest h = ground arith

two :
    (c : ℕ) (rest : List ℕ)
    → 0x7f < c
    → c ≤ 0x7ff
    → utf8_decode_char ((0xc0 + c / 64 % 32) ∷ (0x80 + c % 64) ∷ rest) ≡ done (c, 2)
unfolding utf8_decode_char decode_two
two c rest lo hi = ground arith

three :
    (c : ℕ) (rest : List ℕ)
    → 0x7ff < c
    → c ≤ 0xffff
    → is_surrogate c ≡ false
    → utf8_decode_char ((0xe0 + c / 4096 % 16) ∷ (0x80 + c / 64 % 64) ∷ (0x80 + c % 64) ∷ rest)
      ≡ done (c, 3)
unfolding utf8_decode_char decode_three
three c rest lo hi v = ground arith

four :
    (c : ℕ) (rest : List ℕ)
    → 0xffff < c
    → c ≤ 0x10ffff
    → utf8_decode_char (
        (0xf0 + c / 262144 % 8)
        ∷ (0x80 + c / 4096 % 64)
        ∷ (0x80 + c / 64 % 64)
        ∷ (0x80 + c % 64)
        ∷ rest)
      ≡ done (c, 4)
unfolding utf8_decode_char decode_four
four c rest lo hi = ground arith

-- Every scalar value has an encoding, of one to four bytes, and `utf8_decode_char` reads it back, with
-- its length, whatever bytes follow.
pub encode-Decodes : (c : ℕ) → IsScalar c → Decodes c (utf8_encode_char (pos c))
unfolding utf8_encode_char encode_code
encode-Decodes c v = elim (Bool-cases (leb c 0x7f)) [
  | inl a ↦ rw a (λ rest. one c rest (ground arith))
  | inr a ↦ elim (Bool-cases (leb c 0x7ff)) [
    | inl b ↦ rw (a, b) (λ rest. two c rest (ground arith) (ground arith))
    | inr b ↦ elim (Bool-cases (leb c 0xffff)) [
      | inl d ↦
          let e : is_surrogate c ≡ false = ground arith in
          rw (a, b, d, e) (λ rest. three c rest (ground arith) (ground arith) e)
      | inr d ↦
          let e : leb c 0x10ffff ≡ true = ground arith in
          rw (a, b, d, e) (λ rest. four c rest (ground arith) (ground arith))
    ]
  ]
]

-- The encoder refuses all other code points.
pub encode_refuses : (c : ℕ) → ¬ IsScalar c → utf8_encode_char (pos c) ≡ fail einval
unfolding utf8_encode_char encode_code
encode_refuses c v = ground arith

-- What the decoder accepts is the encoding of the scalar value that it finds.
abbrev pub Encodes : List ℕ → Decoded → Type 0
Encodes bytes (fail e) = Unit {0}
Encodes bytes (done (c, n)) = IsScalar c × (utf8_encode_char (pos c) ≡ done (take n bytes))

two-Encodes :
    (b0 : ℕ) (rest : List ℕ) → 0xc1 < b0 → b0 ≤ 0xdf → Encodes (b0 ∷ rest) (decode_two b0 rest)
unfolding decode_two utf8_encode_char encode_code
two-Encodes b0 [] lo hi = tt
two-Encodes b0 (b1 ∷ _) lo hi = ground arith

three-Encodes :
    (b0 : ℕ) (rest : List ℕ) → 0xdf < b0 → b0 ≤ 0xef → Encodes (b0 ∷ rest) (decode_three b0 rest)
unfolding decode_three utf8_encode_char encode_code
three-Encodes b0 [] lo hi = tt
three-Encodes b0 (b1 ∷ []) lo hi = tt
three-Encodes b0 (b1 ∷ b2 ∷ _) lo hi = ground arith

four-Encodes :
    (b0 : ℕ) (rest : List ℕ) → 0xef < b0 → b0 ≤ 0xf7 → Encodes (b0 ∷ rest) (decode_four b0 rest)
unfolding decode_four utf8_encode_char encode_code
four-Encodes b0 [] lo hi = tt
four-Encodes b0 (b1 ∷ []) lo hi = tt
four-Encodes b0 (b1 ∷ b2 ∷ []) lo hi = tt
four-Encodes b0 (b1 ∷ b2 ∷ b3 ∷ _) lo hi = ground arith

-- Of a buffer that is not empty the decoder accepts nothing but the one encoding of a scalar value:
-- no overlong form, no surrogate, no value out of range.
pub decode-Encodes : (b0 : ℕ) (rest : List ℕ) → Encodes (b0 ∷ rest) (utf8_decode_char (b0 ∷ rest))
unfolding utf8_decode_char
decode-Encodes b0 rest = elim (Bool-cases (leb b0 0x7f)) [
  | inl a ↦ rw a (unfold utf8_encode_char encode_code in ground arith)
  | inr a ↦ elim (Bool-cases (leb b0 0xc1)) [
    | inl b ↦ rw (a, b) tt
    | inr b ↦ elim (Bool-cases (leb b0 0xdf)) [
      | inl d ↦ rw (a, b, d) (two-Encodes b0 rest (ground arith) (ground arith))
      | inr d ↦ elim (Bool-cases (leb b0 0xef)) [
        | inl e ↦ rw (a, b, d, e) (three-Encodes b0 rest (ground arith) (ground arith))
        | inr e ↦ elim (Bool-cases (leb b0 0xf7)) [
          | inl f ↦ rw (a, b, d, e, f) (four-Encodes b0 rest (ground arith) (ground arith))
          | inr f ↦ rw (a, b, d, e, f) tt
        ]
      ]
    ]
  ]
]
