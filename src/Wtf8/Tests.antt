-- ===== src/Wtf8/Tests.antt =====
-- idna.c: runs of the conversions, and the theorems at concrete strings.
use sebbu_c_libuv.Base.{
  ℕ, ◌≡◌, ◌∷◌, [], ◌++◌, List, refl, true, false, none, some, arith, if◌then◌else◌, leb, length,
  ◌==◌,
}
use sebbu_c_libuv.Wtf8.{
  point, wtf8_decode1, uv_wtf8_length_as_utf16, units_of, uv_wtf8_to_utf16, enobufs, buffer,
  uv_utf16_length_as_wtf8, uv_utf16_to_wtf8, encode, fill, finish, encoded_length, surrogate_value,
}
use sebbu_c_libuv.Wtf8.Decode.{last_byte, wtf8_decode1-encode}
use sebbu_c_libuv.Wtf8.Encode.{wtf8_of, uv_utf16_length_as_wtf8-wtf8_of}
use sebbu_c_libuv.Wtf8.Write.{whole_output, cut_output, uv_utf16_to_wtf8-buffer}
use sebbu_c_libuv.Wtf8.Returns.{IsAnswer, uv_wtf8_length_as_utf16-IsAnswer}
use sebbu_c_libuv.Wtf8.Roundtrip.{
  IsText, uv_wtf8_to_utf16-wtf8_of, units_of-supplementary, utf16_of,
}

-- `a`, U+00E9, U+20AC, a pair for U+1F600 and a lone high surrogate.
abbrev mixed : List ℕ
mixed = 0x61 ∷ 0xE9 ∷ 0x20AC ∷ 0xD83D ∷ 0xDE00 ∷ 0xD800 ∷ []

-- One byte is not enough for U+00E9, and 3 bytes are asked for.
asks_for_three :
    uv_utf16_to_wtf8 (λ n. true) true (0xE9 ∷ []) (buffer 1)
    ≡ record { status = enobufs; target = some (0xC3 ∷ []); target_len = 3 }
unfolding uv_utf16_to_wtf8 finish fill encoded_length encode uv_utf16_length_as_wtf8
asks_for_three = refl

wtf8_decode1-encode_example :
    wtf8_decode1 (encode 0x1F600 ++ 0 ∷ []) ≡ point 0x1F600 (last_byte 0x1F600) (0 ∷ [])
wtf8_decode1-encode_example = wtf8_decode1-encode 0x1F600 (0 ∷ []) (omega arith)

uv_utf16_length_as_wtf8-wtf8_of_example :
    uv_utf16_length_as_wtf8 false mixed ≡ length (wtf8_of mixed)
uv_utf16_length_as_wtf8-wtf8_of_example = uv_utf16_length_as_wtf8-wtf8_of false mixed refl

uv_utf16_to_wtf8-buffer_example :
    uv_utf16_to_wtf8 (λ n. true) true mixed (buffer 5)
    ≡ (if leb (length (wtf8_of mixed)) 5 then whole_output mixed else cut_output 5 mixed)
uv_utf16_to_wtf8-buffer_example = uv_utf16_to_wtf8-buffer true mixed refl (λ n. true) 5

uv_wtf8_length_as_utf16-IsAnswer_example :
    IsAnswer (uv_wtf8_length_as_utf16 (0xC3 ∷ 0xA9 ∷ 0 ∷ 7 ∷ []))
uv_wtf8_length_as_utf16-IsAnswer_example =
    uv_wtf8_length_as_utf16-IsAnswer (0xC3 ∷ 0xA9 ∷ 0 ∷ 7 ∷ []) refl

mixed-IsText : IsText mixed
mixed-IsText = ground arith

uv_wtf8_to_utf16-wtf8_of_example :
    uv_wtf8_to_utf16 (wtf8_of mixed ++ 0 ∷ []) 7 ≡ some (mixed ++ 0 ∷ [])
unfolding surrogate_value
uv_wtf8_to_utf16-wtf8_of_example = uv_wtf8_to_utf16-wtf8_of mixed mixed-IsText (ground arith)

units_of-supplementary_example : units_of 0x10000 ≡ (
    if 0x10000 == 0x10000
    then some (0 ∷ [])
    else (if 0x10000 == 0x10FFFF then none else some (utf16_of 0x10000)))
units_of-supplementary_example = units_of-supplementary 0x10000 (omega arith) (omega arith)
