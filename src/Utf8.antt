-- ===== src/Utf8.antt =====
-- idna.c: the UTF-8 decoder of the IDNA code.
--
-- A string is the list of the bytes between the two pointers; `none` is (unsigned) -1. An exclusive
-- or of top bits is the parity of their sum.
pub mod Decode
pub mod Encoded
mod Tests
use sebbu_c_libuv.Base.{
  ℕ, ◌+◌, ◌*◌, ◌/◌, ◌%◌, ◌^◌, Bool, not, ◌&&◌, Option, none, some, List, [], ◌∷◌, ltb, leb, ◌==◌,
  if◌then◌else◌,
}

-- `0x80 == (0xC0 & (b ^ c ^ d))`
unfoldable pub is_sequence : ℕ → ℕ → ℕ → Bool
is_sequence b c d =
    ((b / 128 + c / 128 + d / 128) % 2 == 1) && ((b / 64 + c / 64 + d / 64) % 2 == 0)

-- What follows the switch.
unfoldable pub compose : (a b c d min : ℕ) → List ℕ → Option (ℕ × List ℕ)
compose a b c d min rest =
    let code_point = a * 2 ^ 18 + b % 64 * 2 ^ 12 + c % 64 * 2 ^ 6 + d % 64 in
    if not (is_sequence b c d)
    then none
    else if ltb code_point min
    then none
    else if ltb 0x10FFFF code_point
    then none
    else if leb 0xD800 code_point && leb code_point 0xDFFF
    then none
    else some (code_point, rest)

-- The cases of the switch for one byte, two bytes and more behind the first.
unfoldable pub case_one : ℕ → ℕ → List ℕ → Option (ℕ × List ℕ)
case_one a x rest = if ltb 0xBF a then compose 0 0x80 (0x80 + a % 32) x 0x80 rest else none

unfoldable pub case_two : ℕ → ℕ → ℕ → List ℕ → Option (ℕ × List ℕ)
case_two a x y rest =
    if ltb 0xDF a then compose 0 (0x80 + a % 16) x y 0x800 rest else case_one a x (y ∷ rest)

unfoldable pub case_more : ℕ → ℕ → ℕ → ℕ → List ℕ → Option (ℕ × List ℕ)
case_more a x y z rest =
    if ltb 0xEF a then compose (a % 8) x y z 0x10000 rest else case_two a x y (z ∷ rest)

unfoldable pub uv__utf8_decode1_slow : ℕ → List ℕ → Option (ℕ × List ℕ)
uv__utf8_decode1_slow a [] = none
uv__utf8_decode1_slow a (x ∷ []) = if ltb 0xF7 a then none else case_one a x []
uv__utf8_decode1_slow a (x ∷ y ∷ []) = if ltb 0xF7 a then none else case_two a x y []
uv__utf8_decode1_slow a (x ∷ y ∷ z ∷ rest) = if ltb 0xF7 a then none else case_more a x y z rest

-- The string is not empty, by the assertion.
unfoldable pub uv__utf8_decode1 : ℕ → List ℕ → Option (ℕ × List ℕ)
uv__utf8_decode1 a rest = if ltb a 128 then some (a, rest) else uv__utf8_decode1_slow a rest
