-- ===== src/Wtf8/Decode.antt =====
-- idna.c: uv__wtf8_decode1.
use sebbu_c_libuv.Base.{
  ℕ, ◌+◌, ◌*◌, ◌/◌, ◌%◌, ◌^◌, ◌<◌, ◌≤◌, ◌≡◌, ◌≢◌, ◌⊎◌, inl, inr, refl, Bool, true, false, not, ◌&&◌,
  List, [], ◌∷◌, ◌++◌, length, ltb, leb, if◌then◌else◌, arith, Bool-cases,
}
use sebbu_c_libuv.Queue.Ring.{has}
use sebbu_c_libuv.Wtf8.{
  Decoded, out_of_bounds, invalid, point, is_continuation, wtf8_decode1, decode_second,
  decode_third, decode_fourth, encode,
}

-- The byte at which the pointer is left behind the bytes of a code point.
abbrev pub last_byte : ℕ → ℕ
last_byte c = if ltb c 0x80 then c else 0x80 + c % 64

module _ (c : ℕ) (rest : List ℕ) where
  decode_one : c < 0x80 → wtf8_decode1 (c ∷ rest) ≡ point c c rest
  unfolding wtf8_decode1
  decode_one h = ground arith

  decode_two :
      0x80 ≤ c
      → c < 0x800
      → wtf8_decode1 ((0xC0 + c / 64) ∷ (0x80 + c % 64) ∷ rest) ≡ point c (0x80 + c % 64) rest
  unfolding wtf8_decode1 decode_second
  decode_two h k = ground arith

  decode_three :
      0x800 ≤ c
      → c < 0x10000
      → wtf8_decode1 ((0xE0 + c / 4096) ∷ (0x80 + c / 64 % 64) ∷ (0x80 + c % 64) ∷ rest)
        ≡ point c (0x80 + c % 64) rest
  unfolding wtf8_decode1 decode_second decode_third
  decode_three h k = ground arith

  decode_four :
      0x10000 ≤ c
      → c ≤ 0x10FFFF
      → wtf8_decode1 (
          (0xF0 + c / 262144)
          ∷ (0x80 + c / 4096 % 64)
          ∷ (0x80 + c / 64 % 64)
          ∷ (0x80 + c % 64)
          ∷ rest)
        ≡ point c (0x80 + c % 64) rest
  unfolding wtf8_decode1 decode_second decode_third decode_fourth
  decode_four h k = ground arith

-- Every code point, a surrogate or not, is decoded from the bytes it is encoded as, and the pointer
-- is left at their last byte.
pub wtf8_decode1-encode :
    (c : ℕ) (rest : List ℕ)
    → c ≤ 0x10FFFF
    → wtf8_decode1 (encode c ++ rest) ≡ point c (last_byte c) rest
unfolding encode
wtf8_decode1-encode c rest h = elim (Bool-cases (ltb c 0x80)) [
  | inl one ↦ rw one (decode_one c rest (ground arith))
  | inr a ↦ elim (Bool-cases (ltb c 0x800)) [
    | inl two ↦ rw (a, two) (decode_two c rest (ground arith) (ground arith))
    | inr b ↦ elim (Bool-cases (ltb c 0x10000)) [
      | inl three ↦ rw (a, b, three) (decode_three c rest (ground arith) (ground arith))
      | inr d ↦ rw (a, b, d) (decode_four c rest (ground arith) h)
    ]
  ]
]

-- What a decoder on `source` leaves.
abbrev pub IsWithin : List ℕ → Decoded → Type 0
IsWithin source out_of_bounds = has 0 source ≡ false
IsWithin source invalid = Unit
IsWithin source (point c last rest) =
    (length rest < length source) × ((last ≡ 0) ⊎ (has 0 rest ≡ has 0 source)) × (c ≤ 0x10FFFF)

IsWithin-cons :
    (x : ℕ) (source : List ℕ) (d : Decoded) → x ≢ 0 → IsWithin source d → IsWithin (x ∷ source) d
IsWithin-cons x source out_of_bounds n w = ground arith
IsWithin-cons x source invalid n w = tt
IsWithin-cons x source (point c last rest) n w = ground arith

IsWithin-if :
    (b : Bool) (source : List ℕ) (d e : Decoded)
    → (b ≡ true → IsWithin source d)
    → (b ≡ false → IsWithin source e)
    → IsWithin source (if b then d else e)
IsWithin-if true source d e p q = p refl
IsWithin-if false source d e p q = q refl

fourth-IsWithin : (b c : ℕ) (source : List ℕ) → IsWithin source (decode_fourth b c source)
unfolding decode_fourth
fourth-IsWithin b c [] = refl
fourth-IsWithin b c (x ∷ xs) =
    IsWithin-if (not (is_continuation x)) (x ∷ xs) _ _ (λ no. tt)
      (λ yes.
        let d = (c * 64 + x % 64) % 2 ^ 21 in
        IsWithin-if (leb b 0xF4 && leb d 0x10FFFF) (x ∷ xs) (point d x xs) invalid
          (λ k. ground arith) (λ k. tt))

third-IsWithin : (b c : ℕ) (source : List ℕ) → IsWithin source (decode_third b c source)
unfolding decode_third
third-IsWithin b c [] = refl
third-IsWithin b c (x ∷ xs) =
    IsWithin-if (not (is_continuation x)) (x ∷ xs) _ _ (λ no. tt)
      (λ yes.
        let d = c * 64 + x % 64 in
        IsWithin-if (leb b 0xEF) (x ∷ xs) (point (d % 2 ^ 16) x xs) (decode_fourth b d xs)
          (λ k. ground arith) (λ k. IsWithin-cons x xs _ (ground arith) (fourth-IsWithin b d xs)))

second-IsWithin : (b : ℕ) (source : List ℕ) → IsWithin source (decode_second b source)
unfolding decode_second
second-IsWithin b [] = refl
second-IsWithin b (x ∷ xs) =
    IsWithin-if (not (is_continuation x)) (x ∷ xs) _ _ (λ no. tt)
      (λ yes.
        let d = b * 64 + x % 64 in
        IsWithin-if (leb b 0xDF) (x ∷ xs) (point (d % 2 ^ 11) x xs) (decode_third b d xs)
          (λ k. ground arith) (λ k. IsWithin-cons x xs _ (ground arith) (third-IsWithin b d xs)))

-- `uv__wtf8_decode1` reads behind the end of memory only if no terminator is there; it moves the
-- pointer, and not beyond the terminator, and a code point is at most 0x10FFFF.
pub wtf8_decode1-IsWithin : (source : List ℕ) → IsWithin source (wtf8_decode1 source)
unfolding wtf8_decode1
wtf8_decode1-IsWithin [] = refl
wtf8_decode1-IsWithin (x ∷ xs) =
    IsWithin-if (leb x 0x7F) (x ∷ xs) _ _ (λ k. ground arith)
      (λ k.
        IsWithin-if (ltb x 0xC2) (x ∷ xs) invalid (decode_second x xs) (λ j. tt)
          (λ j. IsWithin-cons x xs _ (ground arith) (second-IsWithin x xs)))
