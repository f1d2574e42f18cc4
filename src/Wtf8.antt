-- ===== src/Wtf8.antt =====
-- idna.c: UTF-16 as WTF-8, and back.
--
-- A string is the list of the bytes or units that lie behind a pointer, the terminator included
-- where a function looks for it. A mask of low bits is a remainder, a shift a product or a quotient
-- by a power of two, and a choice of bits that do not overlap is a sum.
pub mod Decode
pub mod Encode
pub mod Fill
pub mod Returns
pub mod Roundtrip
mod Tests
pub mod Write
use sebbu_c_libuv.Base.{
  ℕ, zero, suc, ◌+◌, ◌-◌, ◌*◌, ◌/◌, ◌%◌, ◌^◌, Bool, true, false, not, ◌&&◌, ◌||◌, Option, none,
  some, List, [], ◌∷◌, ◌++◌, length, take, ltb, leb, ◌==◌, if◌then◌else◌,
}

-- A decoded code point, with the byte at which the decoder leaves the pointer and all bytes behind
-- it; `invalid` is -1, `out_of_bounds` a read behind the last byte in memory.
pub data Decoded : Type 0 where
  out_of_bounds invalid : Decoded
  point : (code_point last : ℕ) (rest : List ℕ) → Decoded

-- `(b & 0xC0) == 0x80`
abbrev pub is_continuation : ℕ → Bool
is_continuation b = b / 64 == 2

unfoldable pub decode_fourth : ℕ → ℕ → List ℕ → Decoded
decode_fourth b1 code_point [] = out_of_bounds
decode_fourth b1 code_point (b4 ∷ rest) =
    let c = (code_point * 64 + b4 % 64) % 2 ^ 21 in
    if not (is_continuation b4)
    then invalid
    else if leb b1 0xF4 && leb c 0x10FFFF
    then point c b4 rest
    else invalid

unfoldable pub decode_third : ℕ → ℕ → List ℕ → Decoded
decode_third b1 code_point [] = out_of_bounds
decode_third b1 code_point (b3 ∷ rest) =
    let c = code_point * 64 + b3 % 64 in
    if not (is_continuation b3)
    then invalid
    else if leb b1 0xEF
    then point (c % 2 ^ 16) b3 rest
    else decode_fourth b1 c rest

unfoldable pub decode_second : ℕ → List ℕ → Decoded
decode_second b1 [] = out_of_bounds
decode_second b1 (b2 ∷ rest) =
    let c = b1 * 64 + b2 % 64 in
    if not (is_continuation b2)
    then invalid
    else if leb b1 0xDF
    then point (c % 2 ^ 11) b2 rest
    else decode_third b1 c rest

unfoldable pub wtf8_decode1 : List ℕ → Decoded
wtf8_decode1 [] = out_of_bounds
wtf8_decode1 (b1 ∷ rest) =
    if leb b1 0x7F then point b1 b1 rest else if ltb b1 0xC2 then invalid else decode_second b1 rest

-- What `uv_wtf8_length_as_utf16` returns; `running` is out of fuel.
pub data Length : Type 0 where
  running overrun negative : Length
  units : ℕ → Length

abbrev more_units : ℕ → Length → Length
more_units n (units k) = units (n + k)
more_units n l = l

unfoldable pub length_loop : ℕ → List ℕ → Length
length_loop zero source = running
length_loop (suc fuel) source = elim (wtf8_decode1 source) [
  | out_of_bounds ↦ overrun
  | invalid ↦ negative
  | point c last rest ↦
      let n = if ltb 0xFFFF c then 2 else 1 in
      let tail = length_loop fuel rest in if last == 0 then units n else more_units n tail
]

-- The number of units includes the terminator.
unfoldable pub uv_wtf8_length_as_utf16 : List ℕ → Length
uv_wtf8_length_as_utf16 source = length_loop (length source) source

-- The units that a code point is written as, or `none` where an assertion fails.
unfoldable pub units_of : ℕ → Option (List ℕ)
units_of c =
    if ltb 0x10000 c
    then if ltb c 0x10FFFF
      then some (((c - 0x10000) / 1024 + 0xD800) ∷ ((c - 0x10000) % 1024 + 0xDC00) ∷ [])
      else none
    else some ((c % 2 ^ 16) ∷ [])

abbrev append_units : Option (List ℕ) → Option (List ℕ) → Option (List ℕ)
append_units none ys = none
append_units (some xs) none = none
append_units (some xs) (some ys) = some (xs ++ ys)

unfoldable pub write_loop : ℕ → List ℕ → Option (List ℕ)
write_loop zero source = none
write_loop (suc fuel) source = elim (wtf8_decode1 source) [
  | out_of_bounds ↦ none
  | invalid ↦ none
  | point c last rest ↦
      let tail = write_loop fuel rest in
      if last == 0 then units_of c else append_units (units_of c) tail
]

-- The units written, which have to be `w_target_len` many; `none` is a failed assertion.
unfoldable pub uv_wtf8_to_utf16 : List ℕ → ℕ → Option (List ℕ)
uv_wtf8_to_utf16 source w_target_len = elim (write_loop (length source) source) [
  | none ↦ none
  | some us ↦ if length us == w_target_len then some us else none
]

-- The code point at a unit, from it and the next one.
unfoldable pub surrogate_value : ℕ → ℕ → ℕ
surrogate_value u next =
    if leb 0xD800 u && leb u 0xDBFF && leb 0xDC00 next && leb next 0xDFFF
    then 0x10000 + (u - 0xD800) * 1024 + (next - 0xDC00)
    else u

unfoldable pub encoded_length : ℕ → ℕ
encoded_length c =
    if ltb c 0x80 then 1 else if ltb c 0x800 then 2 else if ltb c 0x10000 then 3 else 4

-- `counted` is a source whose length is given; the other kind, with a negative length, ends before
-- its first zero unit or at the end of the list. The last unit of either kind stands alone.
unfoldable pub uv_utf16_length_as_wtf8 : Bool → List ℕ → ℕ
uv_utf16_length_as_wtf8 counted [] = 0
uv_utf16_length_as_wtf8 counted (u ∷ []) = if not counted && (u == 0) then 0 else encoded_length u
uv_utf16_length_as_wtf8 counted (u ∷ next ∷ rest) =
    let c = surrogate_value u next in
    let one = uv_utf16_length_as_wtf8 counted (next ∷ rest) in
    let two = uv_utf16_length_as_wtf8 counted rest in
    if not counted && (c == 0) then 0 else encoded_length c + (if ltb c 0x10000 then one else two)

-- The bytes of a code point.
unfoldable pub encode : ℕ → List ℕ
encode c =
    if ltb c 0x80
    then c ∷ []
    else if ltb c 0x800
    then (0xC0 + c / 64) ∷ (0x80 + c % 64) ∷ []
    else if ltb c 0x10000
    then (0xE0 + c / 4096) ∷ (0x80 + c / 64 % 64) ∷ (0x80 + c % 64) ∷ []
    else (0xF0 + c / 262144) ∷ (0x80 + c / 4096 % 64) ∷ (0x80 + c / 64 % 64) ∷ (0x80 + c % 64) ∷ []

-- The outcome of the loop of `uv_utf16_to_wtf8`: the bytes from here on, the variable `target_len`
-- and the units from the final source pointer on, which are none where `w_source_len` is zero.
pub record Filled : Type 0 where
  pub bytes : List ℕ
  pub target_len : ℕ
  pub left : List ℕ

abbrev pub put : List ℕ → Filled → Filled
put bs f = record f { bytes = bs ++ f.bytes }

-- `room` is `target_end - target`, `used` is `target - *target_ptr`.
unfoldable pub fill : Bool → List ℕ → ℕ → ℕ → ℕ → Filled
fill counted [] room used target_len = record { bytes = []; target_len = target_len; left = [] }
fill counted (u ∷ []) room used target_len =
    let n = encoded_length u in
    if not counted && (u == 0)
    then record { bytes = []; target_len = target_len; left = [] }
    else if leb n room
    then put (encode u) (fill counted [] (room - n) (used + n) (used + n))
    else record { bytes = take room (encode u); target_len = target_len; left = u ∷ [] }
fill counted (u ∷ next ∷ rest) room used target_len =
    let c = surrogate_value u next in
    let n = encoded_length c in
    let one = fill counted (next ∷ rest) (room - n) (used + n) (used + n) in
    let two = fill counted rest (room - n) (used + n) (used + n) in
    if not counted && (c == 0)
    then record { bytes = []; target_len = target_len; left = [] }
    else if leb n room
    then put (encode c) (if ltb c 0x10000 then one else two)
    else record { bytes = take room (encode c); target_len = target_len; left = u ∷ next ∷ rest }

pub data Status : Type 0 where
  ok enomem enobufs : Status

-- What the caller of `uv_utf16_to_wtf8` passes: no target at all, a place for a new one, or a buffer
-- with room for so many bytes and a terminator.
pub data Target : Type 0 where
  no_target new_target : Target
  buffer : ℕ → Target

-- The status, the bytes before the terminator, and `*target_len_ptr`.
pub record Output : Type 0 where
  pub status : Status
  pub target : Option (List ℕ)
  pub target_len : ℕ

unfoldable pub finish : Bool → ℕ → Filled → Output
finish counted room f = elim (f.left) [
  | [] ↦ record {
    status = ok;
    target = some f.bytes;
    target_len = if length f.bytes == room then room else length f.bytes;
  }
  | u ∷ us ↦ record {
    status = enobufs;
    target = some f.bytes;
    target_len = f.target_len + uv_utf16_length_as_wtf8 counted (u ∷ us);
  }
]

-- `memory n` says whether `uv__malloc` finds `n` bytes.
unfoldable pub uv_utf16_to_wtf8 : (ℕ → Bool) → Bool → List ℕ → Target → Output
uv_utf16_to_wtf8 memory counted source no_target = record {
  status = ok;
  target = none;
  target_len = uv_utf16_length_as_wtf8 counted source;
}
uv_utf16_to_wtf8 memory counted source new_target =
    let n = uv_utf16_length_as_wtf8 counted source in
    if memory (n + 1)
    then finish counted n (fill counted source n 0 n)
    else record { status = enomem; target = none; target_len = n }
uv_utf16_to_wtf8 memory counted source (buffer room) =
    finish counted room (fill counted source room 0 room)
