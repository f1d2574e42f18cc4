-- ===== src/Inet/Parse.antt =====
-- inet.c: what inet_pton4 accepts.
use sebbu_c_libuv.Base.{
  ℕ, ◌+◌, ◌*◌, ◌≤◌, ◌<◌, ◌≡◌, inl, inr, refl, Bool, true, false, ◌&&◌, Option, none, some, List, [],
  ◌∷◌, ◌++◌, length, length-append, ltb, ◌==◌, if◌then◌else◌, arith, Option-cases,
}
use sebbu_c_libuv.Inet.{dot, digit, pton4_loop, inet_pton4}

abbrev pub IsBytes : List ℕ → Type 0
IsBytes [] = Unit
IsBytes (x ∷ xs) = (x < 256) × IsBytes xs

IsBytes-append : (xs : List ℕ) (x : ℕ) → IsBytes xs → x < 256 → IsBytes (xs ++ x ∷ [])
IsBytes-append [] x h k = (k, tt)
IsBytes-append (y ∷ xs) x h k = (h.0, IsBytes-append xs x h.1 k)

-- What `inet_pton4` stores: four bytes.
abbrev pub IsAddress : Option (List ℕ) → Type 0
IsAddress none = Unit
IsAddress (some bytes) = (length bytes ≡ 4) × IsBytes bytes

-- The dots and digits so far.
abbrev IsCounted : Bool → ℕ → List ℕ → ℕ → Type 0
IsCounted saw_digit octets done current =
    (length done + (if saw_digit then 1 else 0) ≡ octets)
    × (octets ≤ 4)
    × IsBytes done
    × (current < 256)

IsAddress-if :
    (b : Bool) (x y : Option (List ℕ))
    → (b ≡ true → IsAddress x)
    → (b ≡ false → IsAddress y)
    → IsAddress (if b then x else y)
IsAddress-if true x y p q = p refl
IsAddress-if false x y p q = q refl

pton4_loop-IsAddress :
    (src : List ℕ) (saw_digit : Bool) (octets : ℕ) (done : List ℕ) (current : ℕ)
    → IsCounted saw_digit octets done current
    → ((octets ≡ 4) → saw_digit ≡ true)
    → IsAddress (pton4_loop src saw_digit octets done current)
unfolding pton4_loop
pton4_loop-IsAddress [] saw_digit octets done current c e =
    IsAddress-if (ltb octets 4) none (some (done ++ current ∷ [])) (λ few. tt)
      (λ all.
        (ground (arith, length-append done (current ∷ [])), IsBytes-append done current c.2 c.3))
pton4_loop-IsAddress (ch ∷ src) saw_digit octets done current c e = elim (Option-cases (digit ch)) [
  | inl not_digit ↦
      let dotted = pton4_loop src false octets (done ++ current ∷ []) 0 in
      rw (pton4_loop, not_digit)
        (IsAddress-if (ch == dot && saw_digit) (if octets == 4 then none else dotted) none
          (λ k.
            IsAddress-if (octets == 4) none dotted (λ j. tt)
              (λ j.
                pton4_loop-IsAddress src false octets (done ++ current ∷ []) 0
                  (
                    ground (arith, length-append done (current ∷ [])),
                    c.1,
                    IsBytes-append done current c.2 c.3,
                    omega arith,
                  )
                  (ground arith)))
          (λ k. tt))
  | inr (d, is) ↦
      let nw = current * 10 + d in
      let longer = pton4_loop src true octets done nw in
      let first = pton4_loop src true (octets + 1) done nw in
      rw (pton4_loop, is)
        (IsAddress-if (saw_digit && (current == 0)) none _ (λ k. tt)
          (λ k.
            IsAddress-if (ltb 255 nw) none _ (λ j. tt)
              (λ j.
                IsAddress-if saw_digit longer _
                  (λ i.
                    pton4_loop-IsAddress src true octets done nw
                      (ground arith, c.1, c.2, ground arith) (λ x. refl))
                  (λ i.
                    IsAddress-if (ltb 4 (octets + 1)) none first (λ x. tt)
                      (λ x.
                        pton4_loop-IsAddress src true (octets + 1) done nw
                          (ground arith, ground arith, c.2, ground arith) (λ x. refl))))))
]

-- `inet_pton4` either refuses the text or stores four bytes.
pub inet_pton4-IsAddress : (src : List ℕ) → IsAddress (inet_pton4 src)
unfolding inet_pton4
inet_pton4-IsAddress src =
    pton4_loop-IsAddress src false 0 [] 0 (refl, omega arith, tt, omega arith)
      (λ x. absurd (omega arith))
