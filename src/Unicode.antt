-- ===== src/Unicode.antt =====
-- kernel/klib/unicode.c: UTF-8 and UTF-16. Bytes and units are numbers, a buffer with its count is a
-- list. `x & (2^k - 1)` is `x % 2 ^ k`, `x >> k` is `x / 2 ^ k`, and `|` of values without a common bit
-- is `+`. What is stored through the pointer is the result, its length the value returned; the calls
-- with a null pointer return that length alone.
pub mod Utf8
pub mod Buffers
pub mod Utf16
mod Tests
use stanix.Base.{
  ℕ, zero, suc, ◌+◌, ◌-◌, ◌*◌, ◌/◌, ◌%◌, Bool, true, false, not, ◌&&◌, List, [], ◌∷◌, ◌++◌, ltb,
  leb, ◌==◌, if◌then◌else◌, length, drop,
}
use stanix.Base.Int.{ℤ, pos, negsuc}
use stanix.Errno.{Result, done, fail, ◌>>=◌, einval, eilseq}

-- `(b & 0xc0) == 0x80`, for a byte.
abbrev pub is_continuation : ℕ → Bool
is_continuation b = b / 64 == 2

-- A code point and the number of bytes that it takes.
abbrev pub Decoded : Type 0
Decoded = Result (ℕ × ℕ)

pub decode_two : ℕ → List ℕ → Decoded
decode_two b0 [] = fail eilseq
decode_two b0 (b1 ∷ _) =
    let decoded = b0 % 32 * 64 + b1 % 64 in
    if not (is_continuation b1)
    then fail eilseq
    else if leb decoded 0x7f
    then fail eilseq
    else done (decoded, 2)

pub decode_three : ℕ → List ℕ → Decoded
decode_three b0 [] = fail eilseq
decode_three b0 (b1 ∷ []) = fail eilseq
decode_three b0 (b1 ∷ b2 ∷ _) =
    let decoded = b0 % 16 * 4096 + b1 % 64 * 64 + b2 % 64 in
    if not (is_continuation b1)
    then fail eilseq
    else if not (is_continuation b2)
    then fail eilseq
    else if leb decoded 0x7ff
    then fail eilseq
    else if leb 0xd800 decoded && leb decoded 0xdfff
    then fail eilseq
    else done (decoded, 3)

pub decode_four : ℕ → List ℕ → Decoded
decode_four b0 [] = fail eilseq
decode_four b0 (b1 ∷ []) = fail eilseq
decode_four b0 (b1 ∷ b2 ∷ []) = fail eilseq
decode_four b0 (b1 ∷ b2 ∷ b3 ∷ _) =
    let decoded = b0 % 8 * 262144 + b1 % 64 * 4096 + b2 % 64 * 64 + b3 % 64 in
    if not (is_continuation b1)
    then fail eilseq
    else if not (is_continuation b2)
    then fail eilseq
    else if not (is_continuation b3)
    then fail eilseq
    else if leb decoded 0xffff
    then fail eilseq
    else if ltb 0x10ffff decoded
    then fail eilseq
    else done (decoded, 4)

pub utf8_decode_char : List ℕ → Decoded
utf8_decode_char [] = done (0, 0)
utf8_decode_char (b0 ∷ rest) =
    if leb b0 0x7f
    then done (b0, 1)
    else if leb b0 0xc1
    then fail eilseq
    else if leb b0 0xdf
    then decode_two b0 rest
    else if leb b0 0xef
    then decode_three b0 rest
    else if leb b0 0xf7
    then decode_four b0 rest
    else fail eilseq

-- The loop walks along the buffer; `skip` counts what the last character still takes of it. A
-- character takes one byte at least.
pub utf8_decode_from : (skip : ℕ) → List ℕ → Result (List ℕ)
utf8_decode_from skip [] = done []
utf8_decode_from (suc skip) (b ∷ rest) = utf8_decode_from skip rest
utf8_decode_from zero (b ∷ rest) = do
  (codepoint, ret) ← utf8_decode_char (b ∷ rest)
  codepoints ← utf8_decode_from (ret - 1) rest
  done (codepoint ∷ codepoints)

pub utf8_decode_buf : List ℕ → Result (List ℕ)
utf8_decode_buf bytes = utf8_decode_from 0 bytes

abbrev pub is_surrogate : ℕ → Bool
is_surrogate c = leb 0xd800 c && leb c 0xdfff

pub encode_code : ℕ → Result (List ℕ)
encode_code c =
    if leb c 0x7f
    then done (c ∷ [])
    else if leb c 0x7ff
    then done ((0xc0 + c / 64 % 32) ∷ (0x80 + c % 64) ∷ [])
    else if leb c 0xffff
    then (if is_surrogate c
        then fail einval
        else done ((0xe0 + c / 4096 % 16) ∷ (0x80 + c / 64 % 64) ∷ (0x80 + c % 64) ∷ []))
    else if leb c 0x10ffff
    then done (
        (0xf0 + c / 262144 % 8)
        ∷ (0x80 + c / 4096 % 64)
        ∷ (0x80 + c / 64 % 64)
        ∷ (0x80 + c % 64)
        ∷ [])
    else fail einval

pub utf8_encode_char : ℤ → Result (List ℕ)
utf8_encode_char (negsuc n) = fail einval
utf8_encode_char (pos c) = encode_code c

pub utf8_encode_buf : List ℤ → Result (List ℕ)
utf8_encode_buf [] = done []
utf8_encode_buf (c ∷ codepoints) = do
  bytes ← utf8_encode_char c
  rest ← utf8_encode_buf codepoints
  done (bytes ++ rest)

-- The second unit of a pair.
pub decode_pair : ℕ → List ℕ → Decoded
decode_pair u0 [] = fail eilseq
decode_pair u0 (u1 ∷ _) =
    if not (u1 / 1024 == 0xdc00 / 1024)
    then fail eilseq
    else done (u0 % 1024 * 1024 + u1 % 1024 + 0x10000, 2)

pub utf16_decode_char : List ℕ → Decoded
utf16_decode_char [] = done (0, 0)
utf16_decode_char (u0 ∷ rest) =
    if leb u0 0xd7ff
    then done (u0, 1)
    else if leb u0 0xdbff
    then decode_pair u0 rest
    else if leb u0 0xdfff
    then fail eilseq
    else done (u0, 1)

pub encode_units : ℕ → Result (List ℕ)
encode_units c =
    let offset = c - 0x10000 in
    if leb c 0xd7ff
    then done (c ∷ [])
    else if leb c 0xdfff
    then fail einval
    else if leb c 0xffff
    then done (c ∷ [])
    else if leb c 0x10ffff
    then done ((0xdc00 + offset % 1024) ∷ (0xd800 + offset / 1024 % 1024) ∷ [])
    else fail einval

pub utf16_encode_char : ℤ → Result (List ℕ)
utf16_encode_char (negsuc n) = fail einval
utf16_encode_char (pos c) = encode_units c

pub utf16_decode_from : (skip : ℕ) → List ℕ → Result (List ℕ)
utf16_decode_from skip [] = done []
utf16_decode_from (suc skip) (u ∷ rest) = utf16_decode_from skip rest
utf16_decode_from zero (u ∷ rest) = do
  (codepoint, ret) ← utf16_decode_char (u ∷ rest)
  codepoints ← utf16_decode_from (ret - 1) rest
  done (codepoint ∷ codepoints)

pub utf16_decode_buf : List ℕ → Result (List ℕ)
utf16_decode_buf units = utf16_decode_from 0 units

pub utf16_encode_buf : List ℤ → Result (List ℕ)
utf16_encode_buf [] = done []
utf16_encode_buf (c ∷ codepoints) = do
  units ← utf16_encode_char c
  rest ← utf16_encode_buf codepoints
  done (units ++ rest)

-- Both conversions stop behind a code point 0.
pub utf16_to_utf8_from : (skip : ℕ) → List ℕ → Result (List ℕ)
utf16_to_utf8_from skip [] = done []
utf16_to_utf8_from (suc skip) (u ∷ rest) = utf16_to_utf8_from skip rest
utf16_to_utf8_from zero (u ∷ rest) = do
  (codepoint, ret) ← utf16_decode_char (u ∷ rest)
  bytes ← utf8_encode_char (pos codepoint)
  let more = utf16_to_utf8_from (ret - 1) rest
  if codepoint == 0 then done bytes else more >>= λ m. done (bytes ++ m)

pub utf16_to_utf8 : List ℕ → Result (List ℕ)
utf16_to_utf8 source = utf16_to_utf8_from 0 source

pub utf8_to_utf16_from : (skip : ℕ) → List ℕ → Result (List ℕ)
utf8_to_utf16_from skip [] = done []
utf8_to_utf16_from (suc skip) (b ∷ rest) = utf8_to_utf16_from skip rest
utf8_to_utf16_from zero (b ∷ rest) = do
  (codepoint, ret) ← utf8_decode_char (b ∷ rest)
  units ← utf16_encode_char (pos codepoint)
  let more = utf8_to_utf16_from (ret - 1) rest
  if codepoint == 0 then done units else more >>= λ m. done (units ++ m)

pub utf8_to_utf16 : List ℕ → Result (List ℕ)
utf8_to_utf16 source = utf8_to_utf16_from 0 source
