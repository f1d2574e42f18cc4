-- ===== src/Watcher/Tests.antt =====
-- unix/loop-watcher.c and win/loop-watcher.c: a run with three handles, and the theorems at it.
use sebbu_c_libuv.Base.{
  ℕ, zero, suc, ◌≡◌, refl, true, false, not, ◌&&◌, ◌||◌, Option, none, some, List, [], ◌∷◌, ◌==◌,
  ltb, if◌then◌else◌, arith,
}
use sebbu_c_libuv.Base.Sublist.{IsSublist}
use sebbu_c_libuv.Handle.{Flags, handle_start, handle_stop}
use sebbu_c_libuv.Queue.Ring.{has}
use sebbu_c_libuv.Timer.{unlink}
use sebbu_c_libuv.Watcher.{
  Program, Watchers, switch_on, switch_off, start, stop, call_start, call_stop, run_call, run_calls,
  Visit, Script, run_loop, uv__run,
}
use sebbu_c_libuv.Watcher.Windows.{WinWatchers, invoke}
use sebbu_c_libuv.Watcher.Valid.{IsWatchers}
use sebbu_c_libuv.Watcher.Run.{visited, stopped, uv__run-Ran}
use sebbu_c_libuv.Watcher.Same.{NeverCloses, uv__run-invoke}

abbrev active_below_four : ℕ → Flags
active_below_four i = record {
  active = not (i == 0) && ltb i 4;
  ref = true;
  closing = false;
  closed = false;
}

abbrev program : Program
program = record {
  callbacks = λ i. if not (i == 0) && ltb i 4 then some 7 else none;
  flags = active_below_four;
  active_handles = 3;
  variables = 0;
}

abbrev three : Watchers
three = record { handles = 1 ∷ 2 ∷ 3 ∷ []; queue = []; program = program }

abbrev win_three : WinWatchers
win_three = record { handles = 1 ∷ 2 ∷ 3 ∷ []; next = none; program = program }

-- The first callback stops the second handle and starts the fifth, and stops itself.
abbrev script : Script
script zero p = []
script (suc zero) p = call_stop 2 ∷ call_start 5 (some 9) ∷ call_stop 1 ∷ []
script (suc (suc n)) p = []

abbrev outcome : Option (Watchers × List Visit) → Option (List ℕ × List ℕ)
outcome none = none
outcome (some (g, vs)) = some (g.handles, visited vs)

run_three : outcome (uv__run script three) ≡ some (5 ∷ 3 ∷ [], 1 ∷ 3 ∷ [])
unfolding uv__run run_loop run_calls run_call start stop switch_on switch_off handle_start
    handle_stop unlink
run_three = refl

three-IsWatchers : IsWatchers three
three-IsWatchers = record {
  handles = (refl, (refl, (refl, tt)));
  queue = tt;
  apart = λ i k. refl;
  held = λ i. ground arith;
}

uv__run-Ran_example :
    (g : Watchers) × (vs : List Visit) × (uv__run script three ≡ some (g, vs))
    × IsWatchers g
    × (g.queue ≡ [])
    × IsSublist (visited vs) (1 ∷ 2 ∷ 3 ∷ [])
    × ((i : ℕ) → (active_below_four i).active ≡ true → (has i (visited vs) || stopped i vs) ≡ true)
uv__run-Ran_example = uv__run-Ran script three three-IsWatchers refl

script-never : (h : ℕ) (p : Program) → NeverCloses (script h p)
script-never zero p = tt
script-never (suc zero) p = tt
script-never (suc (suc n)) p = tt

uv__run-invoke_example :
    (g : Watchers) × (g' : WinWatchers) × (vs : List Visit) × (uv__run script three ≡ some (g, vs))
    × (invoke script win_three ≡ some (g', vs))
    × (g'.handles ≡ g.handles)
    × (g'.program ≡ g.program)
uv__run-invoke_example =
    uv__run-invoke script script-never three win_three three-IsWatchers refl refl refl
