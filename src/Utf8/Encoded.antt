-- ===== src/Utf8/Encoded.antt =====
-- idna.c: uv__utf8_decode1 on UTF-8.
use sebbu_c_libuv.Base.{
  ℕ, ◌+◌, ◌*◌, ◌/◌, ◌%◌, ◌^◌, ◌≤◌, ◌<◌, ◌≡◌, ◌⊎◌, inl, inr, true, Option, none, some, List, [], ◌∷◌,
  ◌++◌, ltb, arith, Bool-cases,
}
use sebbu_c_libuv.Utf8.{
  is_sequence, compose, case_one, case_two, case_more, uv__utf8_decode1_slow, uv__utf8_decode1,
}
use sebbu_c_libuv.Wtf8.{encode}

-- The decoder on a string of at least one byte.
abbrev pub decode : List ℕ → Option (ℕ × List ℕ)
decode [] = none
decode (a ∷ rest) = uv__utf8_decode1 a rest

is_sequence-continuation :
    (b c d : ℕ) → b < 64 → c < 64 → d < 64 → is_sequence (0x80 + b) (0x80 + c) (0x80 + d) ≡ true
unfolding is_sequence
is_sequence-continuation b c d hb hc hd = ground arith

compose_run :
    (a b c d min n : ℕ) (rest : List ℕ)
    → b < 64
    → c < 64
    → d < 64
    → a * 2 ^ 18 + b * 2 ^ 12 + c * 2 ^ 6 + d ≡ n
    → min ≤ n
    → n ≤ 0x10FFFF
    → (n < 0xD800) ⊎ (0xDFFF < n)
    → compose a (0x80 + b) (0x80 + c) (0x80 + d) min rest ≡ some (n, rest)
unfolding compose
compose_run a b c d min n rest hb hc hd e low high scalar =
    let same : a * 2 ^ 18 + (0x80 + b) % 64 * 2 ^ 12 + (0x80 + c) % 64 * 2 ^ 6 + (0x80 + d) % 64
        ≡ n =
      omega arith in
    rw (compose, is_sequence-continuation b c d hb hc hd, same) (ground arith)

slow_one :
    (a x : ℕ) (rest : List ℕ) → a ≤ 0xDF → uv__utf8_decode1_slow a (x ∷ rest) ≡ case_one a x rest
unfolding uv__utf8_decode1_slow case_two case_more
slow_one a x [] h = ground arith
slow_one a x (y ∷ []) h = ground arith
slow_one a x (y ∷ z ∷ rest) h = ground arith

slow_two :
    (a x y : ℕ) (rest : List ℕ)
    → a ≤ 0xEF
    → uv__utf8_decode1_slow a (x ∷ y ∷ rest) ≡ case_two a x y rest
unfolding uv__utf8_decode1_slow case_more
slow_two a x y [] h = ground arith
slow_two a x y (z ∷ rest) h = ground arith

module _ (c : ℕ) (rest : List ℕ) (scalar : (c < 0xD800) ⊎ (0xDFFF < c)) (high : c ≤ 0x10FFFF) where
  decode_two :
      0x80 ≤ c
      → c < 0x800
      → uv__utf8_decode1 (0xC0 + c / 64) ((0x80 + c % 64) ∷ rest) ≡ some (c, rest)
  unfolding uv__utf8_decode1 case_one
  decode_two h k =
      let m : 0x80 + (0xC0 + c / 64) % 32 ≡ 0x80 + c / 64 = omega arith in
      let run =
        compose_run 0 0 (c / 64) (c % 64) 0x80 c rest (omega arith) (omega arith) (omega arith)
          (omega arith) h high scalar in
      ground (arith, slow_one (0xC0 + c / 64) (0x80 + c % 64) rest (omega arith), m, run)

  decode_three :
      0x800 ≤ c
      → c < 0x10000
      → uv__utf8_decode1 (0xE0 + c / 4096) ((0x80 + c / 64 % 64) ∷ (0x80 + c % 64) ∷ rest)
        ≡ some (c, rest)
  unfolding uv__utf8_decode1 case_two
  decode_three h k =
      let m : 0x80 + (0xE0 + c / 4096) % 16 ≡ 0x80 + c / 4096 = omega arith in
      let run =
        compose_run 0 (c / 4096) (c / 64 % 64) (c % 64) 0x800 c rest (omega arith) (omega arith)
          (omega arith) (omega arith) h high scalar in
      ground (
        arith,
        slow_two (0xE0 + c / 4096) (0x80 + c / 64 % 64) (0x80 + c % 64) rest (omega arith),
        m,
        run,
      )

  decode_four :
      0x10000 ≤ c
      → uv__utf8_decode1
          (0xF0 + c / 262144)
          ((0x80 + c / 4096 % 64) ∷ (0x80 + c / 64 % 64) ∷ (0x80 + c % 64) ∷ rest)
        ≡ some (c, rest)
  unfolding uv__utf8_decode1 uv__utf8_decode1_slow case_more
  decode_four h =
      let m : (0xF0 + c / 262144) % 8 ≡ c / 262144 = omega arith in
      let run =
        compose_run (c / 262144) (c / 4096 % 64) (c / 64 % 64) (c % 64) 0x10000 c rest (omega arith)
          (omega arith) (omega arith) (omega arith) h high scalar in
      ground (arith, m, run)

  -- Every Unicode scalar value is read back from its UTF-8, whatever follows.
  pub uv__utf8_decode1-encode : decode (encode c ++ rest) ≡ some (c, rest)
  unfolding encode uv__utf8_decode1
  uv__utf8_decode1-encode = elim (Bool-cases (ltb c 0x80)) [
    | inl one ↦ rw one (ground arith)
    | inr a ↦ elim (Bool-cases (ltb c 0x800)) [
      | inl two ↦ rw (a, two) (decode_two (ground arith) (ground arith))
      | inr b ↦ elim (Bool-cases (ltb c 0x10000)) [
        | inl three ↦ rw (a, b, three) (decode_three (ground arith) (ground arith))
        | inr d ↦ rw (a, b, d) (decode_four (ground arith))
      ]
    ]
  ]
