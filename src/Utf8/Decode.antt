-- ===== src/Utf8/Decode.antt =====
-- idna.c: what uv__utf8_decode1 accepts.
use sebbu_c_libuv.Base.{
  ℕ, ◌+◌, ◌*◌, ◌/◌, ◌%◌, ◌^◌, ◌≤◌, ◌<◌, ◌≡◌, ◌⊎◌, refl, Bool, true, false, not, ◌&&◌, Option, none,
  some, List, [], ◌∷◌, ltb, leb, ◌==◌, if◌then◌else◌, arith,
}
use sebbu_c_libuv.Utf8.{
  is_sequence, compose, case_one, case_two, case_more, uv__utf8_decode1_slow, uv__utf8_decode1,
}

-- A Unicode scalar value, or none.
abbrev pub IsScalar : Option (ℕ × List ℕ) → Type 0
IsScalar none = Unit
IsScalar (some (c, rest)) = (c ≤ 0x10FFFF) × ((c < 0xD800) ⊎ (0xDFFF < c))

IsScalar-if :
    (b : Bool) (x y : Option (ℕ × List ℕ))
    → (b ≡ true → IsScalar x)
    → (b ≡ false → IsScalar y)
    → IsScalar (if b then x else y)
IsScalar-if true x y p q = p refl
IsScalar-if false x y p q = q refl

compose-IsScalar : (a b c d min : ℕ) (rest : List ℕ) → IsScalar (compose a b c d min rest)
unfolding compose
compose-IsScalar a b c d min rest =
    let n = a * 2 ^ 18 + b % 64 * 2 ^ 12 + c % 64 * 2 ^ 6 + d % 64 in
    IsScalar-if (not (is_sequence b c d)) none _ (λ k. tt)
      (λ k.
        IsScalar-if (ltb n min) none _ (λ j. tt)
          (λ j.
            IsScalar-if (ltb 0x10FFFF n) none _ (λ i. tt)
              (λ i.
                IsScalar-if (leb 0xD800 n && leb n 0xDFFF) none (some (n, rest)) (λ h. tt)
                  (λ h. ground arith))))

one-IsScalar : (a x : ℕ) (rest : List ℕ) → IsScalar (case_one a x rest)
unfolding case_one
one-IsScalar a x rest =
    IsScalar-if (ltb 0xBF a) (compose 0 0x80 (0x80 + a % 32) x 0x80 rest) none
      (λ k. compose-IsScalar 0 0x80 (0x80 + a % 32) x 0x80 rest) (λ k. tt)

two-IsScalar : (a x y : ℕ) (rest : List ℕ) → IsScalar (case_two a x y rest)
unfolding case_two
two-IsScalar a x y rest =
    IsScalar-if (ltb 0xDF a) (compose 0 (0x80 + a % 16) x y 0x800 rest) (case_one a x (y ∷ rest))
      (λ k. compose-IsScalar 0 (0x80 + a % 16) x y 0x800 rest) (λ k. one-IsScalar a x (y ∷ rest))

more-IsScalar : (a x y z : ℕ) (rest : List ℕ) → IsScalar (case_more a x y z rest)
unfolding case_more
more-IsScalar a x y z rest =
    IsScalar-if (ltb 0xEF a) (compose (a % 8) x y z 0x10000 rest) (case_two a x y (z ∷ rest))
      (λ k. compose-IsScalar (a % 8) x y z 0x10000 rest) (λ k. two-IsScalar a x y (z ∷ rest))

-- `uv__utf8_decode1` returns an error or a scalar value: no surrogate, and at most U+10FFFF.
pub uv__utf8_decode1-IsScalar : (a : ℕ) (rest : List ℕ) → IsScalar (uv__utf8_decode1 a rest)
unfolding uv__utf8_decode1 uv__utf8_decode1_slow
uv__utf8_decode1-IsScalar a [] = ground arith
uv__utf8_decode1-IsScalar a (x ∷ []) = ground (arith, one-IsScalar a x [])
uv__utf8_decode1-IsScalar a (x ∷ y ∷ []) = ground (arith, two-IsScalar a x y [])
uv__utf8_decode1-IsScalar a (x ∷ y ∷ z ∷ rest) = ground (arith, more-IsScalar a x y z rest)

-- Behind a first byte from 0xE1 to 0xEC, two bytes are accepted if their two top bits agree, whether
-- they are continuation bytes or not.
pub uv__utf8_decode1-pair :
    (a x y : ℕ)
    → 0xE1 ≤ a
    → a ≤ 0xEC
    → x < 256
    → y < 256
    → uv__utf8_decode1 a (x ∷ y ∷ [])
      ≡ (if x / 64 == y / 64 then some ((a % 16) * 2 ^ 12 + x % 64 * 2 ^ 6 + y % 64, []) else none)
unfolding uv__utf8_decode1 uv__utf8_decode1_slow case_two compose is_sequence
uv__utf8_decode1-pair a x y low high hx hy = ground arith
