-- ===== src/Unicode/Buffers.antt =====
-- Whole buffers of UTF-8.
use stanix.Base.{ℕ, suc, ◌-◌, ◌≡◌, refl, List, [], ◌∷◌, ◌++◌, map, length, arith}
use stanix.Base.Int.{pos}
use stanix.Errno.{Result, done, fail}
use stanix.Unicode.{
  utf8_decode_char, utf8_decode_from, utf8_decode_buf, utf8_encode_char, utf8_encode_buf,
}
use stanix.Unicode.Utf8.{IsScalar, Decodes, encode-Decodes}

abbrev pub AllScalar : List ℕ → Type 0
AllScalar [] = Unit {0}
AllScalar (c ∷ codepoints) = IsScalar c × AllScalar codepoints

-- The bytes of a character that was read are passed over.
decode_from-skip :
    (bytes rest : List ℕ)
    → utf8_decode_from (length bytes) (bytes ++ rest) ≡ utf8_decode_from 0 rest
unfolding utf8_decode_from
decode_from-skip [] rest = refl
decode_from-skip (b ∷ bytes) rest = decode_from-skip bytes rest

-- One character in front of a buffer.
decode_one :
    (c : ℕ) (bytes rest : List ℕ) (codepoints : List ℕ)
    → ((more : List ℕ) → utf8_decode_char (bytes ++ more) ≡ done (c, length bytes))
    → utf8_decode_from 0 rest ≡ done codepoints
    → utf8_decode_from 0 (bytes ++ rest) ≡ done (c ∷ codepoints)
unfolding utf8_decode_from
decode_one c [] rest codepoints h e = unfold utf8_decode_char in ground (arith, h (65 ∷ []))
decode_one c (b ∷ bytes) rest codepoints h e =
    let one_less : suc (length bytes) - 1 ≡ length bytes = omega arith in
    rw (h rest, utf8_decode_from) (rw (one_less, decode_from-skip bytes rest, e))

encode_then :
    (c : ℕ) (codepoints : List ℕ) (r : Result (List ℕ)) (rest : List ℕ)
    → utf8_encode_char (pos c) ≡ r
    → Decodes c r
    → utf8_encode_buf (map pos codepoints) ≡ done rest
    → utf8_decode_from 0 rest ≡ done codepoints
    → (bytes : List ℕ) × (utf8_encode_buf (map pos (c ∷ codepoints)) ≡ done bytes)
      × (utf8_decode_from 0 bytes ≡ done (c ∷ codepoints))
unfolding utf8_encode_buf
encode_then c codepoints (fail e) rest p d q r = absurd d
encode_then c codepoints (done bytes) rest p d q r =
    (bytes ++ rest, rw (p, q), decode_one c bytes rest codepoints d r)

-- A text of scalar values of any length has an encoding, which `utf8_decode_buf` reads back.
pub decode_buf-encode_buf :
    (codepoints : List ℕ)
    → AllScalar codepoints
    → (bytes : List ℕ) × (utf8_encode_buf (map pos codepoints) ≡ done bytes)
      × (utf8_decode_buf bytes ≡ done codepoints)
unfolding utf8_decode_buf utf8_encode_buf utf8_decode_from
decode_buf-encode_buf [] v = ([], refl, refl)
decode_buf-encode_buf (c ∷ codepoints) v =
    let (rest, q, r) = decode_buf-encode_buf codepoints v.1 in
    encode_then c codepoints _ rest refl (encode-Decodes c v.0) q r
