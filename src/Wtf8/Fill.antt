-- ===== src/Wtf8/Fill.antt =====
-- idna.c: the loop of uv_utf16_to_wtf8.
use sebbu_c_libuv.Base.{
  take, ℕ, zero, suc, ◌+◌, ◌-◌, ◌<◌, ◌≤◌, ◌≡◌, ◌≢◌, inl, inr, refl, ap, Bool, List, [], ◌∷◌, ◌++◌,
  length, length-append, ltb, leb, if◌then◌else◌, arith, Bool-cases,
}
use sebbu_c_libuv.Wtf8.{
  surrogate_value, encoded_length, encode, uv_utf16_length_as_wtf8, Filled, put, fill,
}
use sebbu_c_libuv.Wtf8.Encode.{
  wtf8_of, IsWhole, length-encode, goes_on_one, goes_on_two, not_end, not_end_last,
  uv_utf16_length_as_wtf8-wtf8_of,
}

take-long : (n m : ℕ) (xs ys : List ℕ) → n ≡ length xs + m → take n (xs ++ ys) ≡ xs ++ take m ys
take-long n m [] ys h = ap (λ k. take k ys) (omega arith)
take-long zero m (x ∷ xs) ys h = absurd (omega arith)
take-long (suc n) m (x ∷ xs) ys h = ap (◌∷◌ x) (take-long n m xs ys (omega arith))

take-short : (n : ℕ) (xs ys : List ℕ) → n < length xs → take n (xs ++ ys) ≡ take n xs
take-short n [] ys h = absurd (omega arith)
take-short zero (x ∷ xs) ys h = refl
take-short (suc n) (x ∷ xs) ys h = ap (◌∷◌ x) (take-short n xs ys (omega arith))

pub take_all : (n : ℕ) (xs : List ℕ) → length xs ≤ n → take n xs ≡ xs
take_all n [] h = refl
take_all zero (x ∷ xs) h = absurd (omega arith)
take_all (suc n) (x ∷ xs) h = ap (◌∷◌ x) (take_all n xs (omega arith))

-- The bytes of the first code point.
abbrev pub first_length : List ℕ → ℕ
first_length [] = 0
first_length (u ∷ []) = encoded_length u
first_length (u ∷ next ∷ rest) = encoded_length (surrogate_value u next)

-- What the loop does with the room that it has.
pub record Outcome (counted : Bool) (us : List ℕ) (room used target_len : ℕ) (f : Filled)
    : Type 0 where
  pub bytes : f.bytes ≡ take room (wtf8_of us)
  pub fits : length (wtf8_of us) ≤ room → f.left ≡ []
  pub cut : room < length (wtf8_of us) → f.left ≢ []
  pub needed :
      room < length (wtf8_of us)
      → f.target_len + uv_utf16_length_as_wtf8 counted f.left
        ≡ (if leb (first_length us) room then used else target_len) + length (wtf8_of us)

-- The loop stops in front of a code point that does not fit.
stop-Outcome :
    (counted : Bool) (u : ℕ) (us more : List ℕ) (c room used target_len : ℕ)
    → IsWhole counted (u ∷ us)
    → first_length (u ∷ us) ≡ encoded_length c
    → wtf8_of (u ∷ us) ≡ encode c ++ more
    → room < encoded_length c
    → Outcome counted
        (u ∷ us)
        room
        used
        target_len
        (record { bytes = take room (encode c); target_len = target_len; left = u ∷ us })
stop-Outcome counted u us more c room used target_len h first e small = record {
  bytes = rw (e, take-short room (encode c) more (omega (arith, length-encode c)));
  fits = λ k. absurd (ground (arith, e, length-append (encode c) more, length-encode c));
  cut = λ k. λ n. cc;
  needed = λ k. ground (arith, uv_utf16_length_as_wtf8-wtf8_of counted (u ∷ us) h);
}

-- The loop goes on behind a code point that fits.
put-Outcome :
    (counted : Bool) (us rest : List ℕ) (c room used target_len : ℕ) (f : Filled)
    → first_length us ≡ encoded_length c
    → wtf8_of us ≡ encode c ++ wtf8_of rest
    → encoded_length c ≤ room
    → Outcome counted rest
        (room - encoded_length c)
        (used + encoded_length c)
        (used + encoded_length c)
        f
    → Outcome counted us room used target_len (put (encode c) f)
put-Outcome counted us rest c room used target_len f first e fit o =
    let n = length-encode c in
    let both = length-append (encode c) (wtf8_of rest) in
    record {
      bytes = rw (
        e,
        take-long room (room - encoded_length c) (encode c) (wtf8_of rest) (omega (arith, n)),
        o.bytes,
      );
      fits = λ k. o.fits (ground (arith, e, both, n));
      cut = λ k. o.cut (ground (arith, e, both, n));
      needed = λ k. ground (arith, e, both, n, o.needed);
    }

-- `uv_utf16_to_wtf8` writes the WTF-8 of the source as far as it fits, and stops in front of what
-- does not.
pub fill-Outcome :
    (counted : Bool) (us : List ℕ) (room used target_len : ℕ)
    → IsWhole counted us
    → Outcome counted us room used target_len (fill counted us room used target_len)
unfolding fill
fill-Outcome counted [] room used target_len h = record {
  bytes = refl;
  fits = λ k. refl;
  cut = λ k. absurd (omega arith);
  needed = λ k. absurd (omega arith);
}
fill-Outcome counted (u ∷ []) room used target_len h =
    elim (Bool-cases (leb (encoded_length u) room)) [
      | inl fit ↦
          let n = encoded_length u in
          let o = fill-Outcome counted [] (room - n) (used + n) (used + n) (ground arith) in
          rw (not_end_last counted u h, fit)
            (put-Outcome counted (u ∷ []) [] u room used target_len _ refl refl (ground arith) o)
      | inr small ↦
          rw (not_end_last counted u h, small)
            (stop-Outcome counted u [] [] u room used target_len h refl refl (ground arith))
    ]
fill-Outcome counted (u ∷ next ∷ rest) room used target_len h =
    let c = surrogate_value u next in
    let n = encoded_length c in
    let one =
      fill-Outcome counted (next ∷ rest) (room - n) (used + n) (used + n)
        (goes_on_one counted u next rest h) in
    let two =
      fill-Outcome counted rest (room - n) (used + n) (used + n)
        (goes_on_two counted u next rest h) in
    elim (Bool-cases (leb n room)) [
      | inl fit ↦ elim (Bool-cases (ltb c 0x10000)) [
        | inl unit ↦
            rw (not_end counted u next rest h, fit, unit)
              (put-Outcome counted (u ∷ next ∷ rest) (next ∷ rest) c room used target_len _ refl
                (rw unit) (ground arith) one)
        | inr pair ↦
            rw (not_end counted u next rest h, fit, pair)
              (put-Outcome counted (u ∷ next ∷ rest) rest c room used target_len _ refl (rw pair)
                (ground arith) two)
      ]
      | inr small ↦
          rw (not_end counted u next rest h, small)
            (stop-Outcome counted u (next ∷ rest) _ c room used target_len h refl refl
              (ground arith))
    ]
