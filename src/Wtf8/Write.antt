-- ===== src/Wtf8/Write.antt =====
-- idna.c: what uv_utf16_to_wtf8 returns.
use sebbu_c_libuv.Base.{
  take, ℕ, ◌+◌, ◌≤◌, ◌≡◌, ◌≢◌, inl, inr, ◌∙◌, Bool, none, some, List, [], length, leb,
  if◌then◌else◌, arith, Bool-cases, List-cases,
}
use sebbu_c_libuv.Wtf8.{
  uv_utf16_length_as_wtf8, Filled, fill, finish, ok, enomem, enobufs, no_target, new_target, buffer,
  Output, uv_utf16_to_wtf8,
}
use sebbu_c_libuv.Wtf8.Encode.{wtf8_of, IsWhole, uv_utf16_length_as_wtf8-wtf8_of}
use sebbu_c_libuv.Wtf8.Fill.{take_all, first_length, fill-Outcome}

abbrev pub whole_output : List ℕ → Output
whole_output us = record {
  status = ok;
  target = some (wtf8_of us);
  target_len = length (wtf8_of us);
}

-- The output into a buffer that is too small. The length that it asks for counts the buffer as well
-- if not even the first code point fits.
abbrev pub cut_output : ℕ → List ℕ → Output
cut_output room us = record {
  status = enobufs;
  target = some (take room (wtf8_of us));
  target_len = (if leb (first_length us) room then 0 else room) + length (wtf8_of us);
}

finish_ok :
    (counted : Bool) (room : ℕ) (f : Filled)
    → f.left ≡ []
    → finish counted room f
      ≡ record { status = ok; target = some f.bytes; target_len = length f.bytes }
unfolding finish
finish_ok counted room f e = rw (finish, e) (ground arith)

finish_cut :
    (counted : Bool) (room : ℕ) (f : Filled)
    → f.left ≢ []
    → finish counted room f ≡ record {
      status = enobufs;
      target = some f.bytes;
      target_len = f.target_len + uv_utf16_length_as_wtf8 counted f.left;
    }
unfolding finish
finish_cut counted room f n = elim (List-cases f.left) [
  | inl e ↦ absurd (n e)
  | inr (u, us, e) ↦ rw (finish, e)
]

module _ (counted : Bool) (us : List ℕ) (whole : IsWhole counted us) where
  finish_whole :
      (room : ℕ)
      → length (wtf8_of us) ≤ room
      → finish counted room (fill counted us room 0 room) ≡ whole_output us
  finish_whole room fit =
      let f = fill counted us room 0 room in
      let o = fill-Outcome counted us room 0 room whole in
      finish_ok counted room f (o.fits fit) ∙ rw (o.bytes, take_all room (wtf8_of us) fit)

  -- Into a new target, `uv_utf16_to_wtf8` writes the WTF-8 of the whole source and reports its
  -- length, unless there is no memory. With no target it reports the length alone.
  pub uv_utf16_to_wtf8-new :
      (memory : ℕ → Bool)
      → (uv_utf16_to_wtf8 memory counted us new_target ≡ (
          if memory (length (wtf8_of us) + 1)
          then whole_output us
          else record { status = enomem; target = none; target_len = length (wtf8_of us) }))
        × ((uv_utf16_to_wtf8 memory counted us no_target).target_len ≡ length (wtf8_of us))
  unfolding uv_utf16_to_wtf8
  uv_utf16_to_wtf8-new memory =
      let n = uv_utf16_length_as_wtf8-wtf8_of counted us whole in
      (rw (n, finish_whole (length (wtf8_of us)) (omega arith)), n)

  -- Into a buffer, it writes the whole if there is room; else it writes what fits, and the length
  -- that it reports with UV_ENOBUFS is the length of the whole, but counts the room on top of it if
  -- the first code point does not fit.
  pub uv_utf16_to_wtf8-buffer :
      (memory : ℕ → Bool) (room : ℕ)
      → uv_utf16_to_wtf8 memory counted us (buffer room)
        ≡ (if leb (length (wtf8_of us)) room then whole_output us else cut_output room us)
  unfolding uv_utf16_to_wtf8
  uv_utf16_to_wtf8-buffer memory room = elim (Bool-cases (leb (length (wtf8_of us)) room)) [
    | inl fit ↦ rw fit (finish_whole room (ground arith))
    | inr small ↦
        let f = fill counted us room 0 room in
        let o = fill-Outcome counted us room 0 room whole in
        rw small
          (finish_cut counted room f (o.cut (ground arith)) ∙ rw (o.bytes, o.needed (ground arith)))
  ]
