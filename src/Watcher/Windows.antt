-- ===== src/Watcher/Windows.antt =====
-- win/loop-watcher.c: the same handles on Windows, in one doubly linked list with an iterator.
--
-- The list that the fields `name_next` and `name_prev` make is a list of handle numbers; `next` is
-- loop->next_name_handle.
use sebbu_c_libuv.Base.{
  ℕ, zero, suc, ◌&&◌, true, Bool, false, Option, none, some, List, [], ◌∷◌, ◌==◌, if◌then◌else◌,
  length,
}
use sebbu_c_libuv.Handle.{active_handle_add}
use sebbu_c_libuv.Timer.{unlink}
use sebbu_c_libuv.Watcher.{
  Program, Status, ok, einval, switch_on, switch_off, Call, call_start, call_stop, call_close, put,
  assign, Visit, visit, Script,
}

pub record WinWatchers : Type 0 where
  pub handles : List ℕ
  pub next : Option ℕ
  pub program : Program

abbrev pub first : List ℕ → Option ℕ
first [] = none
first (x ∷ xs) = some x

-- The field `name_next` of a handle in the list.
abbrev pub next_of : ℕ → List ℕ → Option ℕ
next_of i [] = none
next_of i (x ∷ xs) = if x == i then first xs else next_of i xs

abbrev pub is_handle : Option ℕ → ℕ → Bool
is_handle none i = false
is_handle (some j) i = j == i

unfoldable pub win_start : ℕ → Option ℕ → WinWatchers → Status × WinWatchers
win_start i cb s = if (s.program.flags i).active then (ok, s) else elim cb [
  | none ↦ (einval, s)
  | some c ↦ (ok, record s { handles = i ∷ s.handles; program = switch_on i c s.program })
]

unfoldable pub win_stop : ℕ → WinWatchers → WinWatchers
win_stop i s =
    if (s.program.flags i).active
    then record s {
      handles = unlink i s.handles;
      next = if is_handle s.next i then next_of i s.handles else s.next;
      program = switch_off i s.program;
    }
    else s

-- `uv__handle_closing` in win/handle-inl.h, without its assertion.
unfoldable pub handle_closing : ℕ → WinWatchers → WinWatchers
handle_closing i s =
    let f = s.program.flags i in
    let n = s.program.active_handles in
    record s {
      program = record (s.program) {
        flags = put s.program.flags i (record f { closing = true; active = false });
        active_handles = if f.active && f.ref then n else active_handle_add n;
      };
    }

-- `uv_close` of win/handle.c on such a handle: a handle that is closing already fails an assertion, and
-- nothing is done where assertions are off. The end of closing is left to its queue.
unfoldable pub win_close : ℕ → WinWatchers → WinWatchers
win_close i s = if (s.program.flags i).closing then s else handle_closing i (win_stop i s)

unfoldable pub win_call : Call → WinWatchers → WinWatchers
win_call (call_start i cb) s = (win_start i cb s).1
win_call (call_stop i) s = win_stop i s
win_call (call_close i) s = win_close i s
win_call (assign n) s = record s { program = record (s.program) { variables = n } }

unfoldable pub win_calls : List Call → WinWatchers → WinWatchers
win_calls [] s = s
win_calls (c ∷ cs) s = win_calls cs (win_call c s)

-- The loop of `uv__name_invoke`; `none` is a loop that needs more rounds.
unfoldable pub invoke_loop : Script → ℕ → WinWatchers → Option (WinWatchers × List Visit)
invoke_loop script zero s = elim (s.next) [ none ↦ some (s, []) | some h ↦ none ]
invoke_loop script (suc fuel) s = elim (s.next) [
  | none ↦ some (s, [])
  | some h ↦
      let calls = script h s.program in
      let moved = record s { next = next_of h s.handles } in
      visit (record { handle = h; calls = calls }) (invoke_loop script fuel (win_calls calls moved))
]

unfoldable pub invoke : Script → WinWatchers → Option (WinWatchers × List Visit)
invoke script s = invoke_loop script (length s.handles) (record s { next = first s.handles })
