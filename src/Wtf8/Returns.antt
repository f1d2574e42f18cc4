-- ===== src/Wtf8/Returns.antt =====
-- idna.c: uv_wtf8_length_as_utf16 returns, and reads no byte behind the terminator.
use sebbu_c_libuv.Base.{
  ℕ, zero, suc, ◌+◌, ◌<◌, ◌≤◌, ◌≡◌, ◌⊎◌, inl, inr, refl, true, false, List, length, ltb, ◌==◌,
  if◌then◌else◌, arith, Bool-cases, List-cases,
}
use sebbu_c_libuv.Queue.Ring.{has, ◌∈◌}
use sebbu_c_libuv.Wtf8.{
  Decoded, out_of_bounds, invalid, point, wtf8_decode1, Length, negative, units, more_units,
  length_loop, uv_wtf8_length_as_utf16,
}
use sebbu_c_libuv.Wtf8.Decode.{IsWithin, wtf8_decode1-IsWithin}

Decoded-cases :
    (d : Decoded)
    → (d ≡ out_of_bounds)
      ⊎ (d ≡ invalid)
      ⊎ ((c : ℕ) × (last : ℕ) × (rest : List ℕ) × (d ≡ point c last rest))
Decoded-cases out_of_bounds = inl refl
Decoded-cases invalid = inr (inl refl)
Decoded-cases (point c last rest) = inr (inr (c, last, rest, refl))

abbrev pub IsAnswer : Length → Type 0
IsAnswer l = (l ≡ negative) ⊎ ((k : ℕ) × (l ≡ units k) × (0 < k))

more-IsAnswer : (n : ℕ) (l : Length) → IsAnswer l → IsAnswer (more_units n l)
more-IsAnswer n l (inl e) = inl (rw e)
more-IsAnswer n l (inr (k, e, p)) = inr (n + k, rw e, omega arith)

pub loop_last :
    (fuel c last : ℕ) (source rest : List ℕ)
    → wtf8_decode1 source ≡ point c last rest
    → (last == 0) ≡ true
    → length_loop (suc fuel) source ≡ units (if ltb 0xFFFF c then 2 else 1)
unfolding length_loop
loop_last fuel c last source rest e z = rw (length_loop, e, z)

pub loop_more :
    (fuel c last : ℕ) (source rest : List ℕ)
    → wtf8_decode1 source ≡ point c last rest
    → (last == 0) ≡ false
    → length_loop (suc fuel) source
      ≡ more_units (if ltb 0xFFFF c then 2 else 1) (length_loop fuel rest)
unfolding length_loop
loop_more fuel c last source rest e z = rw (length_loop, e, z)

loop_invalid :
    (fuel : ℕ) (source : List ℕ)
    → wtf8_decode1 source ≡ invalid
    → length_loop (suc fuel) source ≡ negative
unfolding length_loop
loop_invalid fuel source e = rw (length_loop, e)

length_loop-IsAnswer :
    (fuel : ℕ) (source : List ℕ)
    → length source ≤ fuel
    → 0 ∈ source
    → IsAnswer (length_loop fuel source)
length_loop-IsAnswer zero source enough end =
    absurd
      (elim (List-cases source) [ inl e ↦ ground (arith, e) | inr (x, xs, e) ↦ ground (arith, e) ])
length_loop-IsAnswer (suc fuel) source enough end = elim (Decoded-cases (wtf8_decode1 source)) [
  | inl e ↦
      let w : has 0 source ≡ false = rw e at (wtf8_decode1-IsWithin source) in
      absurd (ground (arith, w))
  | inr (inl e) ↦ inl (loop_invalid fuel source e)
  | inr (inr (c, last, rest, e)) ↦
      let w : IsWithin source (point c last rest) = rw e at (wtf8_decode1-IsWithin source) in
      elim (Bool-cases (last == 0)) [
        | inl z ↦
            inr (if ltb 0xFFFF c then 2 else 1, loop_last fuel c last source rest e z, ground arith)
        | inr n ↦
            let later = length_loop-IsAnswer fuel rest (omega (arith, w.0)) (ground (arith, w.1)) in
            rw (loop_more fuel c last source rest e n) (more-IsAnswer _ _ later)
      ]
]

-- On a string with a terminator, `uv_wtf8_length_as_utf16` returns -1 or a number of units, at
-- least the terminator's; it reads no byte behind the terminator.
pub uv_wtf8_length_as_utf16-IsAnswer :
    (source : List ℕ) → 0 ∈ source → IsAnswer (uv_wtf8_length_as_utf16 source)
unfolding uv_wtf8_length_as_utf16
uv_wtf8_length_as_utf16-IsAnswer source end =
    length_loop-IsAnswer (length source) source (omega arith) end
