-- ===== src/Handle.antt =====
-- uv-common.h: the flags of a handle and the loop's count of active, referenced handles
-- (uv__handle_start, uv__handle_stop, uv__handle_ref, uv__handle_unref, uv__is_closing, uv__has_ref).
pub mod Count
mod Tests
use sebbu_c_libuv.Base.{ℕ, ◌+◌, ◌-◌, ◌%◌, ◌^◌, Bool, true, false, not, ◌||◌, if◌then◌else◌}

-- The bits UV_HANDLE_ACTIVE, UV_HANDLE_REF, UV_HANDLE_CLOSING and UV_HANDLE_CLOSED of `flags`.
pub record Flags : Type 0 where
  pub active : Bool
  pub ref : Bool
  pub closing : Bool
  pub closed : Bool

-- `unsigned int active_handles`
abbrev pub active_handle_add : ℕ → ℕ
active_handle_add n = (n + 1) % 2 ^ 32

abbrev pub active_handle_rm : ℕ → ℕ
active_handle_rm n = (n + 2 ^ 32 - 1) % 2 ^ 32

abbrev pub is_closing : Flags → Bool
is_closing f = f.closing || f.closed

-- What `uv__handle_init` sets: the handle will keep the loop alive once it is active.
abbrev pub handle_init : Flags
handle_init = record { active = false; ref = true; closing = false; closed = false }

-- Each macro takes the handle's flags and `loop->active_handles`.
unfoldable pub handle_start : Flags → ℕ → Flags × ℕ
handle_start f n =
    if f.active
    then (f, n)
    else (record f { active = true }, if f.ref then active_handle_add n else n)

unfoldable pub handle_stop : Flags → ℕ → Flags × ℕ
handle_stop f n =
    if not f.active
    then (f, n)
    else (record f { active = false }, if f.ref then active_handle_rm n else n)

unfoldable pub handle_ref : Flags → ℕ → Flags × ℕ
handle_ref f n = if f.ref then (f, n) else (
  record f { ref = true },
  if f.closing then n else if f.active then active_handle_add n else n,
)

unfoldable pub handle_unref : Flags → ℕ → Flags × ℕ
handle_unref f n = if not f.ref then (f, n) else (
  record f { ref = false },
  if f.closing then n else if f.active then active_handle_rm n else n,
)
