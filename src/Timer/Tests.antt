-- ===== src/Timer/Tests.antt =====
-- timer.c: runs of a loop with two timers, and the theorems at that loop.
use Prim.Native.Nat.{min}
use mathlib.Core.Option
use sebbu_c_libuv.Base.{
  ℕ, ◌+◌, ◌-◌, ◌^◌, ◌≤◌, ◌≡◌, ◌⊎◌, refl, Bool, true, false, none, some, List, [], ◌∷◌, arith, ◌==◌,
  if◌then◌else◌, length, Bool-cases, inl, inr,
}
use sebbu_c_libuv.Handle.{Flags, is_closing, handle_stop}
use sebbu_c_libuv.Heap.{null, node, heap_min, heap_insert, heap_remove}
use sebbu_c_libuv.Timer.{
  Timer, Loop, ok, timer_less_than, uv_timer_stop, uv_timer_start, uv_timer_again, clamped_timeout,
  uint64_max, uv_timer_get_due_in, uv__next_timeout, start, stop, again, close, run_call, run_calls,
  collect, fire, uv__run_timers, arm, start_handle, stop_handle, unlink,
}
use sebbu_c_libuv.Timer.Invariant.{IsLoop}
use sebbu_c_libuv.Timer.Start.{clamped_timeout-min, Started, uv_timer_start-Started}
use sebbu_c_libuv.Timer.Calls.{Kept, MayCalls, run_calls-Kept}
use sebbu_c_libuv.Timer.Run.{Script, Ran, Along-always, uv__run_timers-Ran}
use sebbu_c_libuv.Timer.Next.{IsWait, uv__next_timeout-IsWait}

abbrev flags : Bool → Flags
flags active = record { ref = true; closing = false; closed = false; active = active }

-- Timer 1 is due at 5, timer 2 at 3 and then again after 4; all others are fresh.
abbrev two_timers : ℕ → Timer
two_timers i =
    if i == 1
    then record { timer_cb = some 7; timeout = 5; repeat = 0; start_id = 0; flags = flags true }
    else if i == 2
    then record { timer_cb = some 8; timeout = 3; repeat = 4; start_id = 1; flags = flags true }
    else record { timer_cb = none; timeout = 0; repeat = 0; start_id = 0; flags = flags false }

abbrev two : Loop
two = record {
  time = 4;
  timer_counter = 2;
  timer_heap = record { min = node (node null 1 null) 2 null; nelts = 2 };
  active_handles = 2;
  timers = two_timers;
  ready = [];
}

two-IsLoop : IsLoop two
unfolding timer_less_than
two-IsLoop = record {
  heap = record {
    complete = omega arith;
    ordered = (refl, tt, (tt, tt, tt, tt), tt);
    fits = omega arith;
  };
  held = λ i. ground arith;
  idle = λ i k. cc;
  distinct = tt;
  callable = λ i on. ground arith;
  ready_callable = λ i k. cc;
}

clamp_wraps : clamped_timeout (2 ^ 64 - 3) 5 ≡ uint64_max
unfolding clamped_timeout
clamp_wraps = refl

due_in : uv_timer_get_due_in 1 two ≡ 1
unfolding uv_timer_get_due_in
due_in = refl

-- The callback 8 stops timer 1 and starts timer 3; 9 starts its own timer again at once.
abbrev script : Script
script cb i s =
    if cb == 8
    then stop 1 ∷ start 3 9 0 0 ∷ []
    else if cb == 9
    then start i 9 0 0 ∷ []
    else if is_closing ((s.timers i).flags)
    then []
    else close i ∷ []

calls_one : Option.map (λ r. r.1) (uv__run_timers script two) ≡ some (2 ∷ [])
unfolding uv__run_timers fire collect run_calls run_call uv_timer_again uv_timer_start uv_timer_stop
    arm start_handle stop_handle unlink timer_less_than clamped_timeout heap_min heap_remove
    handle_stop heap_insert
calls_one = refl

-- The callbacks 8 and 9 close nothing, and others close their own timer unless it is closing.
start_only : (i cb timeout repeat : ℕ) (a : Loop) → MayCalls (start i cb timeout repeat ∷ []) a
start_only i cb timeout repeat a = (tt, λ g e. tt)

script-MayCalls : (cb i : ℕ) (a : Loop) → MayCalls (script cb i a) a
script-MayCalls cb i a = elim (Bool-cases (cb == 8)) [
  | inl e ↦ rw e (tt, λ g ran. (tt, λ h more. tt))
  | inr e ↦ elim (Bool-cases (cb == 9)) [
    | inl f ↦ rw (e, f) (start_only i 9 0 0 a)
    | inr f ↦ elim (Bool-cases (is_closing ((a.timers i).flags))) [
      | inl shut ↦ rw (e, f, shut) tt
      | inr opened ↦ rw (e, f, opened) (opened, λ g ran. tt)
    ]
  ]
]

script-length : (cb i : ℕ) (a : Loop) → length (script cb i a) ≤ 2
script-length cb i a = ground arith

clamped_timeout-min_example : clamped_timeout (2 ^ 64 - 3) 5 ≡ min (2 ^ 64 - 3 + 5) uint64_max
clamped_timeout-min_example = clamped_timeout-min (2 ^ 64 - 3) 5 (omega arith) (omega arith)

uv_timer_start-Started_example :
    (g : Loop) × (uv_timer_start 2 (some 9) 10 0 two ≡ some (ok, g)) × Started two 2 9 10 0 g
uv_timer_start-Started_example = uv_timer_start-Started two 2 9 10 0 two-IsLoop refl (omega arith)

run_calls-Kept_example :
    (g : Loop) × (run_calls (close 2 ∷ again 1 ∷ []) two ≡ some g) × Kept two 2 (2 ∷ 1 ∷ []) g
run_calls-Kept_example =
    run_calls-Kept (close 2 ∷ again 1 ∷ []) two two-IsLoop (refl, λ g e. (tt, λ h f. tt))
      (omega arith)

uv__run_timers-Ran_example :
    (g : Loop) × (due : List ℕ) × (called : List ℕ) × Ran script two g due called
uv__run_timers-Ran_example =
    uv__run_timers-Ran script 2 two script-length two-IsLoop (omega arith)
      (λ a e. Along-always MayCalls script (length a.ready + 1) a script-MayCalls)

uv__next_timeout-IsWait_example :
    ((uv__next_timeout two ≡ none) × ((j : ℕ) → (two.timers j).flags.active ≡ false))
    ⊎ ((t : ℕ) × (uv__next_timeout two ≡ some t) × IsWait two t)
uv__next_timeout-IsWait_example = uv__next_timeout-IsWait two two-IsLoop
