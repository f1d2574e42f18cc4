-- ===== src/Text/Copy.antt =====
-- strscpy.c: what uv__strscpy writes and returns.
use sebbu_c_libuv.Base.{
  take, ℕ, zero, suc, ◌+◌, ◌-◌, ◌≤◌, ◌<◌, ◌≡◌, inl, inr, ◌∙◌, refl, ap, false, some, List, [], ◌∷◌,
  ◌++◌, length, length-append, ltb, ◌==◌, if◌then◌else◌, arith, Bool-cases,
}
use sebbu_c_libuv.Queue.Ring.{◌∉◌}
use sebbu_c_libuv.Text.{stopped, full, copy, terminate, count, e2big, ssize_max, uv__strscpy}

copy_short :
    (t more : List ℕ) (n : ℕ)
    → 0 ∉ t
    → length t < n
    → copy (t ++ 0 ∷ more) n ≡ stopped (t ++ 0 ∷ [])
unfolding copy
copy_short t more zero h k = absurd (omega arith)
copy_short [] more (suc n) h k = refl
copy_short (x ∷ t) more (suc n) h k =
    let other : (x == 0) ≡ false = ground arith in
    rw (other, copy_short t more n (ground arith) (omega arith))

copy_long :
    (t more : List ℕ) (n : ℕ) → 0 ∉ t → n ≤ length t → copy (t ++ 0 ∷ more) n ≡ full (take n t)
unfolding copy
copy_long [] more zero h k = refl
copy_long (x ∷ t) more zero h k = refl
copy_long [] more (suc n) h k = absurd (omega arith)
copy_long (x ∷ t) more (suc n) h k =
    let other : (x == 0) ≡ false = ground arith in
    rw (other, copy_long t more n (ground arith) (omega arith))

take_zero : (t : List ℕ) → take 0 t ≡ []
take_zero [] = refl
take_zero (x ∷ t) = refl

terminate-take :
    (t : List ℕ) (n : ℕ) → n < length t → terminate (take (suc n) t) ≡ take n t ++ 0 ∷ []
unfolding terminate
terminate-take [] n k = absurd (omega arith)
terminate-take (x ∷ t) zero k = rw (take_zero t)
terminate-take (x ∷ []) (suc n) k = absurd (omega arith)
terminate-take (x ∷ y ∷ t) (suc n) k = ap (◌∷◌ x) (terminate-take (y ∷ t) n (omega arith))

length-take : (n : ℕ) (t : List ℕ) → n ≤ length t → length (take n t) ≡ n
length-take zero [] k = refl
length-take (suc n) [] k = absurd (omega arith)
length-take zero (x ∷ t) k = refl
length-take (suc n) (x ∷ t) k = ap suc (length-take n t (omega arith))

strscpy_stopped :
    (s d : List ℕ) (n : ℕ)
    → copy s n ≡ stopped d
    → length d ≤ ssize_max + 1
    → uv__strscpy s n ≡ some (d, count (length d - 1))
unfolding uv__strscpy
strscpy_stopped s d n e k = rw (uv__strscpy, e) (ground arith)

strscpy_full :
    (s d : List ℕ) (n : ℕ)
    → copy s n ≡ full d
    → 0 < length d
    → uv__strscpy s n ≡ some (terminate d, e2big)
unfolding uv__strscpy
strscpy_full s d n e k = rw (uv__strscpy, e) (ground arith)

strscpy_none : (s : List ℕ) → uv__strscpy s 0 ≡ some ([], count 0)
unfolding uv__strscpy copy
strscpy_none [] = refl
strscpy_none (x ∷ s) = refl

-- `uv__strscpy` of a string with a terminator reads nothing behind it. With no room it writes
-- nothing; with room for all, it copies the string and returns its length; else it fills the room
-- with the front of the string and a terminator and returns UV_E2BIG.
pub uv__strscpy-take :
    (t more : List ℕ) (n : ℕ)
    → 0 ∉ t
    → length t ≤ ssize_max
    → uv__strscpy (t ++ 0 ∷ more) n
      ≡ some (
          if n == 0
          then ([], count 0)
          else if ltb (length t) n
          then (t ++ 0 ∷ [], count (length t))
          else (take (n - 1) t ++ 0 ∷ [], e2big))
uv__strscpy-take t more zero h k = strscpy_none (t ++ 0 ∷ more)
uv__strscpy-take t more (suc n) h k = elim (Bool-cases (ltb (length t) (suc n))) [
  | inl short ↦
      let n_eq : length (t ++ 0 ∷ []) ≡ length t + 1 = omega (arith, length-append t (0 ∷ [])) in
      let c : length (t ++ 0 ∷ []) - 1 ≡ length t = omega (arith, n_eq) in
      let room : (suc n == 0) ≡ false = ground arith in
      strscpy_stopped (t ++ 0 ∷ more) (t ++ 0 ∷ []) (suc n)
        (copy_short t more (suc n) h (ground arith)) (omega arith)
      ∙ rw (room, short, c)
  | inr long ↦
      let room : (suc n == 0) ≡ false = ground arith in
      let back : suc n - 1 ≡ n = omega arith in
      let size = length-take (suc n) t (ground arith) in
      strscpy_full (t ++ 0 ∷ more) (take (suc n) t) (suc n)
        (copy_long t more (suc n) h (ground arith)) (omega arith)
      ∙ rw (room, long, back, terminate-take t n (ground arith))
]
