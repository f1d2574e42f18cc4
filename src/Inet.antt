-- ===== src/Inet.antt =====
-- inet.c: the text of IPv4 addresses.
--
-- An address is the list of its bytes, a text the list of the characters before the terminator.
pub mod Parse
pub mod Print
mod Tests
use sebbu_c_libuv.Base.{
  ℕ, zero, suc, ◌+◌, ◌-◌, ◌*◌, ◌/◌, ◌%◌, Bool, true, false, not, ◌&&◌, ◌||◌, Option, none, some,
  List, [], ◌∷◌, ◌++◌, length, ltb, leb, ◌==◌, if◌then◌else◌,
}

abbrev pub dot : ℕ
dot = 46

-- `strchr` on the digits, for a character that is not the terminator.
unfoldable pub digit : ℕ → Option ℕ
digit ch = if leb 48 ch && leb ch 57 then some (ch - 48) else none

-- The loop of `inet_pton4`: `done` are the bytes in front of `*tp`, `current` is `*tp`. `none` is
-- UV_EINVAL.
unfoldable pub pton4_loop : List ℕ → Bool → ℕ → List ℕ → ℕ → Option (List ℕ)
pton4_loop [] saw_digit octets done current =
    if ltb octets 4 then none else some (done ++ current ∷ [])
pton4_loop (ch ∷ src) saw_digit octets done current =
    let dotted = pton4_loop src false octets (done ++ current ∷ []) 0 in
    elim (digit ch) [
      | none ↦ if ch == dot && saw_digit then if octets == 4 then none else dotted else none
      | some d ↦
          let nw = current * 10 + d in
          let longer = pton4_loop src true octets done nw in
          let first = pton4_loop src true (octets + 1) done nw in
          if saw_digit && (current == 0)
          then none
          else if ltb 255 nw
          then none
          else if saw_digit
          then longer
          else if ltb 4 (octets + 1)
          then none
          else first
    ]

unfoldable pub inet_pton4 : List ℕ → Option (List ℕ)
inet_pton4 src = pton4_loop src false 0 [] 0

-- `%u` of a byte.
unfoldable pub decimal : ℕ → List ℕ
decimal n =
    if ltb n 10
    then (48 + n) ∷ []
    else if ltb n 100
    then (48 + n / 10) ∷ (48 + n % 10) ∷ []
    else (48 + n / 100) ∷ (48 + n / 10 % 10) ∷ (48 + n % 10) ∷ []

-- The text that `inet_ntop4` copies to `dst`; `none` is UV_ENOSPC.
unfoldable pub inet_ntop4 : ℕ → ℕ → ℕ → ℕ → ℕ → Option (List ℕ)
inet_ntop4 a b c d size =
    let tmp = decimal a ++ (dot ∷ (decimal b ++ (dot ∷ (decimal c ++ (dot ∷ decimal d))))) in
    if leb size (length tmp) then none else some tmp
