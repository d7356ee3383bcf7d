-- ===== src/Unicode/Utf16.antt =====
-- UTF-16: code points of one unit come back; those of two units do not.
use stanix.Base.{ℕ, ◌+◌, ◌-◌, ◌/◌, ◌%◌, ◌≤◌, ◌<◌, ◌≡◌, ◌⊎◌, List, [], ◌∷◌, arith}
use stanix.Base.Int.{pos}
use stanix.Errno.{done, fail, eilseq}
use stanix.Unicode.{decode_pair, utf16_decode_char, encode_units, utf16_encode_char}

-- A scalar value of the basic plane is one unit, which the decoder reads back.
pub basic_plane :
    (c : ℕ) (rest : List ℕ)
    → (c < 0xd800) ⊎ ((0xdfff < c) × (c ≤ 0xffff))
    → (utf16_encode_char (pos c) ≡ done (c ∷ [])) × (utf16_decode_char (c ∷ rest) ≡ done (c, 1))
unfolding utf16_encode_char encode_units utf16_decode_char
basic_plane c rest h = ground arith

-- The units of a scalar value beyond the basic plane, as the encoder stores them, are refused by the
-- decoder; with the units the other way round it finds the value.
pub high_planes_swapped :
    (c : ℕ) (rest : List ℕ)
    → 0xffff < c
    → c ≤ 0x10ffff
    → (low high : ℕ) × (utf16_encode_char (pos c) ≡ done (low ∷ high ∷ []))
      × (utf16_decode_char (low ∷ high ∷ rest) ≡ fail eilseq)
      × (utf16_decode_char (high ∷ low ∷ rest) ≡ done (c, 2))
unfolding utf16_encode_char encode_units utf16_decode_char decode_pair
high_planes_swapped c rest lo hi =
    let offset = c - 0x10000 in
    (
      0xdc00 + offset % 1024,
      0xd800 + offset / 1024 % 1024,
      ground arith,
      ground arith,
      ground arith,
    )
