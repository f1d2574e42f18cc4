-- ===== src/Text.antt =====
-- strscpy.c and strtok.c: bounded copies and tokens.
--
-- A string is the list of the bytes that lie behind a pointer. The copy gets the terminator and what
-- is behind it too; the tokens are taken from the bytes before the terminator, where overwriting a
-- separator by a terminator ends the token.
pub mod Copy
pub mod Fields
mod Tests
use sebbu_c_libuv.Base.{
  ℕ, zero, suc, ◌+◌, ◌-◌, ◌^◌, Bool, true, false, Option, none, some, List, [], ◌∷◌, ◌++◌, length,
  ltb, leb, ◌==◌, if◌then◌else◌,
}
use sebbu_c_libuv.Queue.Ring.{has}

abbrev pub ssize_max : ℕ
ssize_max = 2 ^ 63 - 1

-- The first loop of `uv__strscpy`: the bytes stored in `d`, and whether the last one is the
-- terminator; `overrun` is a read behind the last byte in memory.
pub data Copied : Type 0 where
  overrun : Copied
  stopped full : List ℕ → Copied

abbrev pub store : ℕ → Copied → Copied
store x overrun = overrun
store x (stopped d) = stopped (x ∷ d)
store x (full d) = full (x ∷ d)

unfoldable pub copy : List ℕ → ℕ → Copied
copy s zero = full []
copy [] (suc n) = overrun
copy (x ∷ xs) (suc n) = let rest = copy xs n in if x == 0 then stopped (0 ∷ []) else store x rest

-- The last of the bytes overwritten by the terminator.
unfoldable pub terminate : List ℕ → List ℕ
terminate [] = []
terminate (x ∷ []) = 0 ∷ []
terminate (x ∷ y ∷ d) = x ∷ terminate (y ∷ d)

pub data Answer : Type 0 where
  count : ℕ → Answer
  e2big : Answer

-- The bytes at the front of `d` that are written, and the value returned.
unfoldable pub uv__strscpy : List ℕ → ℕ → Option (List ℕ × Answer)
uv__strscpy s n = elim (copy s n) [
  | overrun ↦ none
  | stopped d ↦ some (d, if ltb ssize_max (length d - 1) then e2big else count (length d - 1))
  | full d ↦ if length d == 0 then some (d, count 0) else some (terminate d, e2big)
]

-- The token, and what `*itr` is set to.
unfoldable pub scan : List ℕ → List ℕ → List ℕ × Option (List ℕ)
scan sep [] = ([], none)
scan sep (c ∷ cs) =
    let (token, itr) = scan sep cs in if has c sep then ([], some cs) else (c ∷ token, itr)

-- `uv__strtok` on a string or on `*itr`. Both results are NULL if there is neither.
unfoldable pub uv__strtok :
    Option (List ℕ) → List ℕ → Option (List ℕ) → Option (List ℕ) × Option (List ℕ)
uv__strtok none sep none = (none, none)
uv__strtok none sep (some tmp) = let (token, itr) = scan sep tmp in (some token, itr)
uv__strtok (some str) sep itr = let (token, itr') = scan sep str in (some token, itr')
