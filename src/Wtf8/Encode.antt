-- ===== src/Wtf8/Encode.antt =====
-- idna.c: uv_utf16_length_as_wtf8 and uv_utf16_to_wtf8.
use sebbu_c_libuv.Base.{
  ℕ, ◌<◌, ◌≡◌, ◌≢◌, inl, inr, refl, Bool, true, false, not, ◌&&◌, ◌||◌, List, [], ◌∷◌, ◌++◌, length,
  length-append, ltb, ◌==◌, if◌then◌else◌, arith, Bool-cases,
}
use sebbu_c_libuv.Queue.Ring.{has}
use sebbu_c_libuv.Wtf8.{surrogate_value, encoded_length, encode, uv_utf16_length_as_wtf8}

-- The code points of a source: a high surrogate and the low one behind it are one, and every other
-- unit stands for itself.
abbrev pub code_points : List ℕ → List ℕ
code_points [] = []
code_points (u ∷ []) = u ∷ []
code_points (u ∷ next ∷ rest) =
    let one = code_points (next ∷ rest) in
    let two = code_points rest in
    surrogate_value u next ∷ (if ltb (surrogate_value u next) 0x10000 then one else two)

abbrev pub encode_all : List ℕ → List ℕ
encode_all [] = []
encode_all (c ∷ cs) = encode c ++ encode_all cs

-- WTF-8, by its definition.
abbrev pub wtf8_of : List ℕ → List ℕ
wtf8_of us = encode_all (code_points us)

-- The source is counted, or ends at the end of the list.
abbrev pub IsWhole : Bool → List ℕ → Type 0
IsWhole counted us = (counted || not (has 0 us)) ≡ true

pub length-encode : (c : ℕ) → length (encode c) ≡ encoded_length c
unfolding encode encoded_length
length-encode c = ground arith

pub surrogate_value-small :
    (u next : ℕ) → surrogate_value u next < 0x10000 → surrogate_value u next ≡ u
unfolding surrogate_value
surrogate_value-small u next h = ground arith

pub surrogate_value-positive : (u next : ℕ) → u ≢ 0 → surrogate_value u next ≢ 0
unfolding surrogate_value
surrogate_value-positive u next h = ground arith

pub goes_on_one :
    (counted : Bool) (u next : ℕ) (rest : List ℕ)
    → IsWhole counted (u ∷ next ∷ rest)
    → IsWhole counted (next ∷ rest)
goes_on_one counted u next rest h = ground arith

pub goes_on_two :
    (counted : Bool) (u next : ℕ) (rest : List ℕ)
    → IsWhole counted (u ∷ next ∷ rest)
    → IsWhole counted rest
goes_on_two counted u next rest h = ground arith

pub not_end :
    (counted : Bool) (u next : ℕ) (rest : List ℕ)
    → IsWhole counted (u ∷ next ∷ rest)
    → (not counted && (surrogate_value u next == 0)) ≡ false
not_end counted u next rest h = ground (arith, surrogate_value-positive u next)

pub not_end_last :
    (counted : Bool) (u : ℕ) → IsWhole counted (u ∷ []) → (not counted && (u == 0)) ≡ false
not_end_last counted u h = ground arith

-- `uv_utf16_length_as_wtf8` is the number of bytes of the source's WTF-8.
pub uv_utf16_length_as_wtf8-wtf8_of :
    (counted : Bool) (us : List ℕ)
    → IsWhole counted us
    → uv_utf16_length_as_wtf8 counted us ≡ length (wtf8_of us)
unfolding uv_utf16_length_as_wtf8
uv_utf16_length_as_wtf8-wtf8_of counted [] h = refl
uv_utf16_length_as_wtf8-wtf8_of counted (u ∷ []) h =
    rw (not_end_last counted u h) (omega (arith, length-append (encode u) [], length-encode u))
uv_utf16_length_as_wtf8-wtf8_of counted (u ∷ next ∷ rest) h =
    let one =
      uv_utf16_length_as_wtf8-wtf8_of counted (next ∷ rest) (goes_on_one counted u next rest h) in
    let two = uv_utf16_length_as_wtf8-wtf8_of counted rest (goes_on_two counted u next rest h) in
    let c = surrogate_value u next in
    elim (Bool-cases (ltb c 0x10000)) [
      | inl unit ↦
          rw (not_end counted u next rest h, unit)
            (omega (arith, length-append (encode c) (wtf8_of (next ∷ rest)), length-encode c, one))
      | inr pair ↦
          rw (not_end counted u next rest h, pair)
            (omega (arith, length-append (encode c) (wtf8_of rest), length-encode c, two))
    ]
