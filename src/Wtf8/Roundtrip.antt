-- ===== src/Wtf8/Roundtrip.antt =====
-- idna.c: UTF-16 survives the way to WTF-8 and back.
use mathlib.Core.List.{append_assoc}
use sebbu_c_libuv.Base.{
  ℕ, zero, suc, ◌+◌, ◌-◌, ◌/◌, ◌%◌, ◌^◌, ◌<◌, ◌≤◌, ◌≡◌, ◌≢◌, inl, inr, refl, sym, ap, ◌∙◌, true,
  false, none, some, List, [], ◌∷◌, ◌++◌, length, length-append, ltb, ◌==◌, if◌then◌else◌, arith,
  Bool-cases,
}
use sebbu_c_libuv.Wtf8.{
  point, wtf8_decode1, surrogate_value, encode, units, length_loop, uv_wtf8_length_as_utf16,
  units_of, append_units, write_loop, uv_wtf8_to_utf16,
}
use sebbu_c_libuv.Wtf8.Decode.{last_byte, wtf8_decode1-encode}
use sebbu_c_libuv.Wtf8.Encode.{code_points, encode_all, wtf8_of, surrogate_value-small}
use sebbu_c_libuv.Wtf8.Returns.{loop_last, loop_more}

-- Every unit is one of 16 bits and not the terminator.
abbrev pub IsText : List ℕ → Type 0
IsText [] = Unit
IsText (u ∷ us) = (0 < u) × (u < 2 ^ 16) × IsText us

-- What the decoder accepts and is not the terminator.
abbrev IsPoints : List ℕ → Type 0
IsPoints [] = Unit
IsPoints (c ∷ cs) = (0 < c) × (c ≤ 0x10FFFF) × IsPoints cs

-- The code points other than the two that `uv_wtf8_to_utf16` does not write as a pair.
abbrev pub IsPlain : List ℕ → Type 0
IsPlain [] = Unit
IsPlain (c ∷ cs) = (c ≢ 0x10000) × (c ≢ 0x10FFFF) × IsPlain cs

surrogate_value-bounds :
    (u next : ℕ)
    → 0 < u
    → u < 2 ^ 16
    → (0 < surrogate_value u next) × (surrogate_value u next ≤ 0x10FFFF)
unfolding surrogate_value
surrogate_value-bounds u next p h = (ground arith, ground arith)

text-IsPoints : (us : List ℕ) → IsText us → IsPoints (code_points us)
text-IsPoints [] t = tt
text-IsPoints (u ∷ []) t = (t.0, omega (arith, t.1), tt)
text-IsPoints (u ∷ next ∷ rest) t =
    let b = surrogate_value-bounds u next t.0 t.1 in
    let one = text-IsPoints (next ∷ rest) t.2 in
    let two = text-IsPoints rest t.2.2 in
    elim (Bool-cases (ltb (surrogate_value u next) 0x10000)) [
      | inl unit ↦ (b.0, b.1, rw unit one)
      | inr pair ↦ (b.0, b.1, rw pair two)
    ]

last_byte-positive : (c : ℕ) → 0 < c → (last_byte c == 0) ≡ false
last_byte-positive c h = ground arith

-- The units of a code point, by the definition of UTF-16.
unfoldable pub utf16_of : ℕ → List ℕ
utf16_of c =
    if ltb c 0x10000
    then c ∷ []
    else ((c - 0x10000) / 1024 + 0xD800) ∷ ((c - 0x10000) % 1024 + 0xDC00) ∷ []

abbrev utf16_all : List ℕ → List ℕ
utf16_all [] = []
utf16_all (c ∷ cs) = utf16_of c ++ utf16_all cs

decode_end : wtf8_decode1 (0 ∷ []) ≡ point 0 0 []
unfolding wtf8_decode1
decode_end = refl

-- What the decoder makes of the first of several code points.
decode_first :
    (c : ℕ) (cs : List ℕ)
    → c ≤ 0x10FFFF
    → wtf8_decode1 (encode_all (c ∷ cs) ++ 0 ∷ []) ≡ point c (last_byte c) (encode_all cs ++ 0 ∷ [])
decode_first c cs h =
    rw (append_assoc (encode c) (encode_all cs) (0 ∷ []))
      (wtf8_decode1-encode c (encode_all cs ++ 0 ∷ []) h)

length-utf16_of : (c : ℕ) → length (utf16_of c) ≡ (if ltb 0xFFFF c then 2 else 1)
unfolding utf16_of
length-utf16_of c = ground arith

length_loop-encode_all :
    (cs : List ℕ) (fuel : ℕ)
    → IsPoints cs
    → length cs < fuel
    → length_loop fuel (encode_all cs ++ 0 ∷ []) ≡ units (length (utf16_all cs) + 1)
length_loop-encode_all cs zero p enough = absurd (omega arith)
length_loop-encode_all [] (suc fuel) p enough = loop_last fuel 0 0 (0 ∷ []) [] decode_end refl
length_loop-encode_all (c ∷ cs) (suc fuel) p enough =
    loop_more fuel c (last_byte c) _ (encode_all cs ++ 0 ∷ []) (decode_first c cs p.1)
      (last_byte-positive c p.0)
    ∙ rw (length_loop-encode_all cs fuel p.2 (omega arith))
        (ap units (omega (arith, length-append (utf16_of c) (utf16_all cs), length-utf16_of c)))

units_of-utf16_of : (c : ℕ) → c ≢ 0x10000 → c < 0x10FFFF → units_of c ≡ some (utf16_of c)
unfolding units_of utf16_of
units_of-utf16_of c n h = ground arith

write_last :
    (fuel c last : ℕ) (source rest : List ℕ)
    → wtf8_decode1 source ≡ point c last rest
    → (last == 0) ≡ true
    → write_loop (suc fuel) source ≡ units_of c
unfolding write_loop
write_last fuel c last source rest e z = rw (write_loop, e, z)

write_more :
    (fuel c last : ℕ) (source rest : List ℕ)
    → wtf8_decode1 source ≡ point c last rest
    → (last == 0) ≡ false
    → write_loop (suc fuel) source ≡ append_units (units_of c) (write_loop fuel rest)
unfolding write_loop
write_more fuel c last source rest e z = rw (write_loop, e, z)

write_loop-encode_all :
    (cs : List ℕ) (fuel : ℕ)
    → IsPoints cs
    → IsPlain cs
    → length cs < fuel
    → write_loop fuel (encode_all cs ++ 0 ∷ []) ≡ some (utf16_all cs ++ 0 ∷ [])
unfolding utf16_of
write_loop-encode_all cs zero p plain enough = absurd (omega arith)
write_loop-encode_all [] (suc fuel) p plain enough =
    write_last fuel 0 0 (0 ∷ []) [] decode_end refl
    ∙ units_of-utf16_of 0 (omega arith) (omega arith)
write_loop-encode_all (c ∷ cs) (suc fuel) p plain enough =
    write_more fuel c (last_byte c) _ (encode_all cs ++ 0 ∷ []) (decode_first c cs p.1)
      (last_byte-positive c p.0)
    ∙ rw
        (
          write_loop-encode_all cs fuel p.2 plain.2 (omega arith),
          units_of-utf16_of c plain.0 (omega (arith, p.1, plain.1)),
        )
        (ap some (sym (append_assoc (utf16_of c) (utf16_all cs) (0 ∷ []))))

pair-utf16_of :
    (u next : ℕ)
    → ltb (surrogate_value u next) 0x10000 ≡ false
    → u < 2 ^ 16
    → utf16_of (surrogate_value u next) ≡ u ∷ next ∷ []
unfolding surrogate_value utf16_of
pair-utf16_of u next e h = ground arith

utf16_unit : (u : ℕ) → u < 2 ^ 16 → utf16_of u ≡ u ∷ []
unfolding utf16_of
utf16_unit u h = ground arith

-- UTF-16 is the units of its code points.
utf16_all-code_points : (us : List ℕ) → IsText us → utf16_all (code_points us) ≡ us
utf16_all-code_points [] t = refl
utf16_all-code_points (u ∷ []) t = rw (utf16_unit u t.1)
utf16_all-code_points (u ∷ next ∷ rest) t =
    let one = utf16_all-code_points (next ∷ rest) t.2 in
    let two = utf16_all-code_points rest t.2.2 in
    elim (Bool-cases (ltb (surrogate_value u next) 0x10000)) [
      | inl unit ↦
          let same = surrogate_value-small u next (ground arith) in
          rw (unit, one, same, utf16_unit u t.1)
      | inr pair ↦ rw (pair, two, pair-utf16_of u next pair t.1)
    ]

length-encode_all : (cs : List ℕ) → length cs ≤ length (encode_all cs)
unfolding encode
length-encode_all [] = omega arith
length-encode_all (c ∷ cs) =
    ground (arith, length-append (encode c) (encode_all cs), length-encode_all cs)

module _ (us : List ℕ) (text : IsText us) where
  enough : length (code_points us) < length (wtf8_of us ++ 0 ∷ [])
  enough = omega (arith, length-append (wtf8_of us) (0 ∷ []), length-encode_all (code_points us))

  -- `uv_wtf8_length_as_utf16` on the WTF-8 of UTF-16 text counts its units and the terminator.
  pub uv_wtf8_length_as_utf16-wtf8_of :
      uv_wtf8_length_as_utf16 (wtf8_of us ++ 0 ∷ []) ≡ units (length us + 1)
  unfolding uv_wtf8_length_as_utf16
  uv_wtf8_length_as_utf16-wtf8_of =
      length_loop-encode_all (code_points us) (length (wtf8_of us ++ 0 ∷ []))
        (text-IsPoints us text) enough
      ∙ ap (λ k. units (length k + 1)) (utf16_all-code_points us text)

  write_loop-wtf8_of :
      IsPlain (code_points us)
      → write_loop (length (wtf8_of us ++ 0 ∷ [])) (wtf8_of us ++ 0 ∷ []) ≡ some (us ++ 0 ∷ [])
  write_loop-wtf8_of plain =
      write_loop-encode_all (code_points us) (length (wtf8_of us ++ 0 ∷ [])) (text-IsPoints us text)
        plain enough
      ∙ ap (λ k. some (k ++ 0 ∷ [])) (utf16_all-code_points us text)

  -- UTF-16 text, lone surrogates included, comes back from its WTF-8 unchanged, if it has neither
  -- U+10000 nor U+10FFFF, and no assertion fails.
  pub uv_wtf8_to_utf16-wtf8_of :
      IsPlain (code_points us)
      → uv_wtf8_to_utf16 (wtf8_of us ++ 0 ∷ []) (length us + 1) ≡ some (us ++ 0 ∷ [])
  unfolding uv_wtf8_to_utf16
  uv_wtf8_to_utf16-wtf8_of plain =
      rw (uv_wtf8_to_utf16, write_loop-wtf8_of plain, length-append us (0 ∷ [])) (ground arith)

-- The two code points that a test against the wrong bound leaves out: U+10000 is written as one
-- unit, a terminator, though two were counted, and U+10FFFF fails an assertion. Every other code
-- point above the basic plane is written as the two units that were counted.
pub units_of-supplementary :
    (c : ℕ)
    → 0xFFFF < c
    → c ≤ 0x10FFFF
    → units_of c ≡ (
        if c == 0x10000 then some (0 ∷ []) else (if c == 0x10FFFF then none else some (utf16_of c)))
unfolding units_of utf16_of
units_of-supplementary c h k = ground arith
