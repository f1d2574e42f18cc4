-- ===== src/Inet/Tests.antt =====
-- inet.c: runs, and the theorems at concrete addresses.
use sebbu_c_libuv.Base.{ℕ, ◌<◌, ◌≡◌, ◌⊎◌, List, [], ◌∷◌, none, some, refl, arith, length}
use sebbu_c_libuv.Inet.{digit, pton4_loop, inet_pton4, inet_ntop4}
use sebbu_c_libuv.Inet.Parse.{IsAddress, inet_pton4-IsAddress}
use sebbu_c_libuv.Inet.Print.{inet_ntop4-inet_pton4}

-- "1.02.3.4" is refused for its leading zero.
leading_zero : inet_pton4 (49 ∷ 46 ∷ 48 ∷ 50 ∷ 46 ∷ 51 ∷ 46 ∷ 52 ∷ []) ≡ none
unfolding inet_pton4 pton4_loop digit
leading_zero = refl

inet_pton4-IsAddress_example : IsAddress (inet_pton4 (49 ∷ 46 ∷ 50 ∷ 46 ∷ 51 ∷ 46 ∷ 52 ∷ []))
inet_pton4-IsAddress_example = inet_pton4-IsAddress (49 ∷ 46 ∷ 50 ∷ 46 ∷ 51 ∷ 46 ∷ 52 ∷ [])

inet_ntop4-inet_pton4_example :
    ((inet_ntop4 127 0 0 1 16 ≡ none) × (16 < 16))
    ⊎ ((s : List ℕ) × (inet_ntop4 127 0 0 1 16 ≡ some s)
        × (length s < 16)
        × (length s < 16)
        × (inet_pton4 s ≡ some (127 ∷ 0 ∷ 0 ∷ 1 ∷ [])))
inet_ntop4-inet_pton4_example =
    inet_ntop4-inet_pton4 127 0 0 1 (omega arith) (omega arith) (omega arith) (omega arith) 16
