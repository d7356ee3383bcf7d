-- ===== src/Unicode/Tests.antt =====
-- Characters of each length.
use stanix.Base.{ℕ, ◌≡◌, refl, inl, List, [], ◌∷◌, arith}
use stanix.Base.Int.{pos, negsuc}
use stanix.Errno.{done, fail, einval}
use stanix.Unicode.{
  utf8_decode_char, decode_two, decode_three, decode_four, utf8_decode_from, utf8_decode_buf,
  encode_code, utf8_encode_char, utf8_encode_buf, decode_pair, utf16_decode_char, encode_units,
  utf16_encode_char, utf16_decode_from, utf16_decode_buf, utf16_encode_buf, utf8_to_utf16_from,
  utf8_to_utf16, utf16_to_utf8_from, utf16_to_utf8,
}
use stanix.Unicode.Utf8.{Encodes, encode_refuses, decode-Encodes}
use stanix.Unicode.Buffers.{decode_buf-encode_buf}

euro : utf8_encode_char (pos 0x20ac) ≡ done (0xe2 ∷ 0x82 ∷ 0xac ∷ [])
unfolding utf8_encode_char encode_code
euro = refl

negative : utf8_encode_char (negsuc 0) ≡ fail einval
unfolding utf8_encode_char
negative = refl

text :
    utf8_decode_buf (0x41 ∷ 0xc3 ∷ 0xa9 ∷ 0xf0 ∷ 0x9f ∷ 0x98 ∷ 0x80 ∷ [])
    ≡ done (0x41 ∷ 0xe9 ∷ 0x1f600 ∷ [])
unfolding utf8_decode_buf utf8_decode_from utf8_decode_char decode_two decode_three decode_four
text = refl

to_units : utf8_to_utf16 (0x41 ∷ 0xc3 ∷ 0xa9 ∷ 0 ∷ 0x42 ∷ []) ≡ done (0x41 ∷ 0xe9 ∷ 0 ∷ [])
unfolding utf8_to_utf16 utf8_to_utf16_from utf8_decode_char decode_two utf16_encode_char
    encode_units
to_units = refl

to_bytes :
    utf16_to_utf8 (0xd83d ∷ 0xde00 ∷ 0x42 ∷ []) ≡ done (0xf0 ∷ 0x9f ∷ 0x98 ∷ 0x80 ∷ 0x42 ∷ [])
unfolding utf16_to_utf8 utf16_to_utf8_from utf16_decode_char decode_pair utf8_encode_char
    encode_code
to_bytes = refl

units_back : utf16_decode_buf (0x41 ∷ 0xd83d ∷ 0xde00 ∷ []) ≡ done (0x41 ∷ 0x1f600 ∷ [])
unfolding utf16_decode_buf utf16_decode_from utf16_decode_char decode_pair
units_back = refl

units : utf16_encode_buf (pos 0x41 ∷ pos 0xe9 ∷ []) ≡ done (0x41 ∷ 0xe9 ∷ [])
unfolding utf16_encode_buf utf16_encode_char encode_units
units = refl

encode_refuses_example : utf8_encode_char (pos 0xd800) ≡ fail einval
encode_refuses_example = encode_refuses 0xd800 (ground arith)

decode-Encodes_example :
    Encodes (0xe2 ∷ 0x82 ∷ 0xac ∷ 0x41 ∷ []) (utf8_decode_char (0xe2 ∷ 0x82 ∷ 0xac ∷ 0x41 ∷ []))
decode-Encodes_example = decode-Encodes 0xe2 (0x82 ∷ 0xac ∷ 0x41 ∷ [])

decode_buf-encode_buf_example :
    (bytes : List ℕ) × (utf8_encode_buf (pos 0x41 ∷ pos 0x20ac ∷ []) ≡ done bytes)
    × (utf8_decode_buf bytes ≡ done (0x41 ∷ 0x20ac ∷ []))
decode_buf-encode_buf_example =
    decode_buf-encode_buf (0x41 ∷ 0x20ac ∷ []) (inl (omega arith), (inl (omega arith), tt))
