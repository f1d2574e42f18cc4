-- ===== src/Timer/Next.antt =====
-- timer.c: what uv__next_timeout promises the poll.
use sebbu_c_libuv.Base.{
  ℕ, ◌+◌, ◌-◌, ◌≤◌, ◌≡◌, ◌⊎◌, true, false, none, some, arith, ltb, leb, ◌==◌, if◌then◌else◌,
  Option-cases, inl, inr,
}
use sebbu_c_libuv.Heap.{heap_min}
use sebbu_c_libuv.Heap.Min.{heap_min-none}
use sebbu_c_libuv.Timer.{Timer, Loop, uv__next_timeout, timer_less_than, int_max}
use sebbu_c_libuv.Timer.Invariant.{IsLoop}
use sebbu_c_libuv.Timer.Collect.{min-active}

-- What `uv__next_timeout` answers when the first timer is due at `timeout`.
abbrev pub wait : ℕ → ℕ → ℕ
wait time timeout =
    if leb timeout time
    then 0
    else (if ltb int_max (timeout - time) then int_max else timeout - time)

next_none : (s : Loop) → heap_min s.timer_heap ≡ none → uv__next_timeout s ≡ none
unfolding uv__next_timeout
next_none s e = rw (uv__next_timeout, e)

next_some :
    (s : Loop) (i : ℕ)
    → heap_min s.timer_heap ≡ some i
    → uv__next_timeout s ≡ some (wait s.time (s.timers i).timeout)
unfolding uv__next_timeout
next_some s i e = rw (uv__next_timeout, e) (ground arith)

not_less :
    (timers : ℕ → Timer) (j i : ℕ)
    → timer_less_than timers j i ≡ false
    → (timers i).timeout ≤ (timers j).timeout
unfolding timer_less_than
not_less timers j i h = ground arith

-- The poll may sleep for `t`: it is not beyond INT_MAX or the due time of an active timer, and it
-- ends for one unless it is INT_MAX.
pub record IsWait (s : Loop) (t : ℕ) : Type 0 where
  pub bounded : t ≤ int_max
  pub early :
      (j : ℕ) → (s.timers j).flags.active ≡ true → (t ≡ 0) ⊎ (s.time + t ≤ (s.timers j).timeout)
  pub first : ℕ
  pub active : (s.timers first).flags.active ≡ true
  pub exact : (t ≡ int_max) ⊎ ((s.timers first).timeout ≤ s.time + t)

-- `uv__next_timeout` blocks without a limit only if no timer is active. Otherwise it never lets the
-- poll sleep beyond the due time of an active timer, and it wakes for the first one unless that is
-- INT_MAX milliseconds away or more.
pub uv__next_timeout-IsWait :
    (s : Loop)
    → IsLoop s
    → ((uv__next_timeout s ≡ none) × ((j : ℕ) → (s.timers j).flags.active ≡ false))
      ⊎ ((t : ℕ) × (uv__next_timeout s ≡ some t) × IsWait s t)
uv__next_timeout-IsWait s v = elim (Option-cases (heap_min s.timer_heap)) [
  | inl e ↦
      inl (next_none s e, λ j. ground (arith, v.held j, heap_min-none (◌==◌ j) s.timer_heap e))
  | inr (i, e) ↦
      let (on, least) = min-active s i v e in
      inr (
        wait s.time (s.timers i).timeout,
        next_some s i e,
        record {
          bounded = ground arith;
          early = λ j act. ground (arith, not_less s.timers j i (least j act));
          first = i;
          active = on;
          exact = ground arith;
        },
      )
]
