-- ===== src/Utf8/Tests.antt =====
-- idna.c: runs of the UTF-8 decoder, and the theorems at concrete strings.
use sebbu_c_libuv.Base.{
  ◌+◌, ◌*◌, ◌/◌, ◌%◌, ◌^◌, ◌≡◌, inl, ◌++◌, [], ◌∷◌, some, none, refl, arith, ◌==◌, if◌then◌else◌,
}
use sebbu_c_libuv.Utf8.{is_sequence, compose, case_two, uv__utf8_decode1_slow, uv__utf8_decode1}
use sebbu_c_libuv.Utf8.Decode.{IsScalar, uv__utf8_decode1-IsScalar, uv__utf8_decode1-pair}
use sebbu_c_libuv.Utf8.Encoded.{decode, uv__utf8_decode1-encode}
use sebbu_c_libuv.Wtf8.{encode}

-- 0xE1 and the letters "AA" are read as U+1041.
letters_pass : uv__utf8_decode1 0xE1 (0x41 ∷ 0x41 ∷ []) ≡ some (0x1041, [])
unfolding uv__utf8_decode1 uv__utf8_decode1_slow case_two compose is_sequence
letters_pass = refl

uv__utf8_decode1-IsScalar_example : IsScalar (uv__utf8_decode1 0xED (0xA0 ∷ 0x80 ∷ []))
uv__utf8_decode1-IsScalar_example = uv__utf8_decode1-IsScalar 0xED (0xA0 ∷ 0x80 ∷ [])

uv__utf8_decode1-pair_example : uv__utf8_decode1 0xE1 (0x41 ∷ 0x41 ∷ []) ≡ (
    if 0x41 / 64 == 0x41 / 64
    then some ((0xE1 % 16) * 2 ^ 12 + 0x41 % 64 * 2 ^ 6 + 0x41 % 64, [])
    else none)
uv__utf8_decode1-pair_example =
    uv__utf8_decode1-pair 0xE1 0x41 0x41 (omega arith) (omega arith) (omega arith) (omega arith)

uv__utf8_decode1-encode_example : decode (encode 0x20AC ++ 0x2E ∷ []) ≡ some (0x20AC, 0x2E ∷ [])
uv__utf8_decode1-encode_example =
    uv__utf8_decode1-encode 0x20AC (0x2E ∷ []) (inl (omega arith)) (omega arith)
