-- ===== src/Watcher.antt =====
-- unix/loop-watcher.c: idle, prepare and check handles, which one macro defines.
--
-- A queue is a list of handle numbers. `queue` is the local queue of uv__run_name; a node is
-- unlinked from whichever of the two it is in.
pub mod Windows
pub mod Valid
pub mod Run
pub mod Same
mod Tests
use sebbu_c_libuv.Base.{
  ℕ, zero, suc, Bool, true, false, Option, none, some, List, [], ◌∷◌, ◌++◌, ◌==◌, if◌then◌else◌,
  length,
}
use sebbu_c_libuv.Handle.{Flags, handle_init, handle_start, handle_stop}
use sebbu_c_libuv.Timer.{unlink}

-- What a program sees: the callbacks and flags of the handles, the loop's count, and a number that
-- stands for its own variables.
pub record Program : Type 0 where
  pub callbacks : ℕ → Option ℕ
  pub flags : ℕ → Flags
  pub active_handles : ℕ
  pub variables : ℕ

pub record Watchers : Type 0 where
  pub handles : List ℕ
  pub queue : List ℕ
  pub program : Program

pub data Status : Type 0 where
  ok einval : Status

abbrev pub put {ℓ} : {A : Type ℓ} → (ℕ → A) → ℕ → A → ℕ → A
put f i a j = if j == i then a else f j

unfoldable pub init : ℕ → Program → Program
init i p = record p { flags = put p.flags i handle_init; callbacks = put p.callbacks i none }

-- `name_cb` and `uv__handle_start`, and `uv__handle_stop`.
unfoldable pub switch_on : ℕ → ℕ → Program → Program
switch_on i cb p =
    let (f, n) = handle_start (p.flags i) p.active_handles in
    record p {
      callbacks = put p.callbacks i (some cb);
      flags = put p.flags i f;
      active_handles = n;
    }

unfoldable pub switch_off : ℕ → Program → Program
switch_off i p =
    let (f, n) = handle_stop (p.flags i) p.active_handles in
    record p { flags = put p.flags i f; active_handles = n }

unfoldable pub start : ℕ → Option ℕ → Watchers → Status × Watchers
start i cb s = if (s.program.flags i).active then (ok, s) else elim cb [
  | none ↦ (einval, s)
  | some c ↦ (ok, record s { handles = i ∷ s.handles; program = switch_on i c s.program })
]

unfoldable pub stop : ℕ → Watchers → Watchers
stop i s =
    if (s.program.flags i).active
    then record s {
      handles = unlink i s.handles;
      queue = unlink i s.queue;
      program = switch_off i s.program;
    }
    else s

unfoldable pub close : ℕ → Watchers → Watchers
close i s = stop i s

-- What a callback may do to watchers.
pub data Call : Type 0 where
  call_start : (i : ℕ) → (cb : Option ℕ) → Call
  call_stop : ℕ → Call
  call_close : ℕ → Call
  assign : (variables : ℕ) → Call

unfoldable pub run_call : Call → Watchers → Watchers
run_call (call_start i cb) s = (start i cb s).1
run_call (call_stop i) s = stop i s
run_call (call_close i) s = close i s
run_call (assign n) s = record s { program = record (s.program) { variables = n } }

unfoldable pub run_calls : List Call → Watchers → Watchers
run_calls [] s = s
run_calls (c ∷ cs) s = run_calls cs (run_call c s)

-- The call of a handle's callback, and what it did.
pub record Visit : Type 0 where
  pub handle : ℕ
  pub calls : List Call

abbrev pub Script : Type 0
Script = (handle : ℕ) → Program → List Call

abbrev pub visit {ℓ} : {A : Type ℓ} → Visit → Option (A × List Visit) → Option (A × List Visit)
visit v none = none
visit v (some (a, vs)) = some (a, v ∷ vs)

-- The loop of `uv__run_name`; `none` is a loop that needs more rounds.
unfoldable pub run_loop : Script → ℕ → Watchers → Option (Watchers × List Visit)
run_loop script zero s = elim (s.queue) [ [] ↦ some (s, []) | _ ↦ none ]
run_loop script (suc fuel) s = elim (s.queue) [
  | [] ↦ some (s, [])
  | h ∷ rest ↦
      let calls = script h s.program in
      let moved = record s { queue = rest; handles = s.handles ++ h ∷ [] } in
      visit (record { handle = h; calls = calls }) (run_loop script fuel (run_calls calls moved))
]

unfoldable pub uv__run : Script → Watchers → Option (Watchers × List Visit)
uv__run script s = run_loop script (length s.handles) (record s { handles = []; queue = s.handles })
