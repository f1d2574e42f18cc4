-- ===== src/Inet/Print.antt =====
-- inet.c: inet_ntop4 and back.
use mathlib.Core.List.{append-nil}
use sebbu_c_libuv.Base.{
  ℕ, ◌+◌, ◌*◌, ◌/◌, ◌%◌, ◌≤◌, ◌<◌, ◌≡◌, ◌⊎◌, inl, inr, refl, sym, ap, ◌∙◌, true, false, none, some,
  List, [], ◌∷◌, ◌++◌, length, length-append, ltb, leb, arith, Bool-cases,
}
use sebbu_c_libuv.Inet.{dot, digit, pton4_loop, inet_pton4, decimal, inet_ntop4}

digit_char : (n : ℕ) → n < 10 → digit (48 + n) ≡ some n
unfolding digit
digit_char n h = ground arith

digit-dot : digit dot ≡ none
unfolding digit
digit-dot = refl

-- The first digit of a part.
first_digit :
    (n octets : ℕ) (src done : List ℕ)
    → n < 10
    → octets < 4
    → pton4_loop ((48 + n) ∷ src) false octets done 0 ≡ pton4_loop src true (octets + 1) done n
unfolding pton4_loop
first_digit n octets src done h k =
    let z : 0 * 10 + n ≡ n = omega arith in rw (pton4_loop, digit_char n h, z) (ground arith)

-- A later digit of a part.
next_digit :
    (n octets current : ℕ) (src done : List ℕ)
    → n < 10
    → 0 < current
    → current * 10 + n < 256
    → pton4_loop ((48 + n) ∷ src) true octets done current
      ≡ pton4_loop src true octets done (current * 10 + n)
unfolding pton4_loop
next_digit n octets current src done h p k = rw (pton4_loop, digit_char n h) (ground arith)

-- The dot behind a part.
end_part :
    (octets current : ℕ) (src done : List ℕ)
    → octets < 4
    → pton4_loop (dot ∷ src) true octets done current
      ≡ pton4_loop src false octets (done ++ current ∷ []) 0
unfolding pton4_loop
end_part octets current src done k = rw (pton4_loop, digit-dot) (ground arith)

-- The decimal digits of a byte are read as that byte.
pton4_loop-decimal :
    (n octets : ℕ) (src done : List ℕ)
    → n < 256
    → octets < 4
    → pton4_loop (decimal n ++ src) false octets done 0 ≡ pton4_loop src true (octets + 1) done n
unfolding decimal
pton4_loop-decimal n octets src done h k = elim (Bool-cases (ltb n 10)) [
  | inl one ↦ rw one (first_digit n octets src done (ground arith) k)
  | inr a ↦ elim (Bool-cases (ltb n 100)) [
    | inl two ↦
        rw (a, two)
          (first_digit (n / 10) octets ((48 + n % 10) ∷ src) done (ground arith) k
            ∙ next_digit (n % 10) (octets + 1) (n / 10) src done (omega arith) (ground arith)
                (omega arith)
            ∙ ap (λ m. pton4_loop src true (octets + 1) done m) (omega arith))
    | inr b ↦
        rw (a, b)
          (first_digit (n / 100) octets ((48 + n / 10 % 10) ∷ (48 + n % 10) ∷ src) done
              (omega arith) k
            ∙ next_digit (n / 10 % 10) (octets + 1) (n / 100) ((48 + n % 10) ∷ src) done
                (omega arith) (ground arith) (omega arith)
            ∙ next_digit (n % 10) (octets + 1) (n / 100 * 10 + n / 10 % 10) src done (omega arith)
                (ground arith) (omega arith)
            ∙ ap (λ m. pton4_loop src true (octets + 1) done m) (omega arith))
  ]
]

pton4_loop_end : (done : List ℕ) (n : ℕ) → pton4_loop [] true 4 done n ≡ some (done ++ n ∷ [])
unfolding pton4_loop
pton4_loop_end done n = refl

length-decimal : (n : ℕ) → length (decimal n) ≤ 3
unfolding decimal
length-decimal n = ground arith

-- The text of an address.
abbrev pub text : ℕ → ℕ → ℕ → ℕ → List ℕ
text a b c d = decimal a ++ (dot ∷ (decimal b ++ (dot ∷ (decimal c ++ (dot ∷ decimal d)))))

length-text : (a b c d : ℕ) → length (text a b c d) < 16
length-text a b c d = omega (
  arith,
  length-append (decimal a) (dot ∷ (decimal b ++ (dot ∷ (decimal c ++ (dot ∷ decimal d))))),
  length-append (decimal b) (dot ∷ (decimal c ++ (dot ∷ decimal d))),
  length-append (decimal c) (dot ∷ decimal d),
  length-decimal a,
  length-decimal b,
  length-decimal c,
  length-decimal d,
)

module _ (a b c d : ℕ) (ha : a < 256) (hb : b < 256) (hc : c < 256) (hd : d < 256) where
  -- `inet_pton4` reads the text of an address back.
  inet_pton4-text : inet_pton4 (text a b c d) ≡ some (a ∷ b ∷ c ∷ d ∷ [])
  unfolding inet_pton4
  inet_pton4-text =
      let tail_c : List ℕ = decimal c ++ (dot ∷ decimal d) in
      let tail_b : List ℕ = decimal b ++ (dot ∷ tail_c) in
      pton4_loop-decimal a 0 (dot ∷ tail_b) [] ha (omega arith)
      ∙ end_part 1 a tail_b [] (omega arith)
      ∙ pton4_loop-decimal b 1 (dot ∷ tail_c) (a ∷ []) hb (omega arith)
      ∙ end_part 2 b tail_c (a ∷ []) (omega arith)
      ∙ pton4_loop-decimal c 2 (dot ∷ decimal d) (a ∷ b ∷ []) hc (omega arith)
      ∙ end_part 3 c (decimal d) (a ∷ b ∷ []) (omega arith)
      ∙ ap (λ s. pton4_loop s false 3 (a ∷ b ∷ c ∷ []) 0) (sym (append-nil (decimal d)))
      ∙ pton4_loop-decimal d 3 [] (a ∷ b ∷ c ∷ []) hd (omega arith)
      ∙ pton4_loop_end (a ∷ b ∷ c ∷ []) d

  -- `inet_ntop4` refuses a destination without room for the text and its terminator, never needs more
  -- than UV__INET_ADDRSTRLEN bytes, and what it writes is read back as the same address.
  pub inet_ntop4-inet_pton4 :
      (size : ℕ)
      → ((inet_ntop4 a b c d size ≡ none) × (size < 16))
        ⊎ ((s : List ℕ) × (inet_ntop4 a b c d size ≡ some s)
            × (length s < size)
            × (length s < 16)
            × (inet_pton4 s ≡ some (a ∷ b ∷ c ∷ d ∷ [])))
  unfolding inet_ntop4
  inet_ntop4-inet_pton4 size = elim (Bool-cases (leb size (length (text a b c d)))) [
    | inl small ↦ inl (rw small, ground (arith, length-text a b c d))
    | inr fit ↦ inr (text a b c d, rw fit, ground arith, length-text a b c d, inet_pton4-text)
  ]
