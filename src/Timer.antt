-- ===== src/Timer.antt =====
-- timer.c: timers in the loop's heap.
--
-- A timer is named by a number. The handles are a store of records, the heap orders the numbers by
-- what the store holds, and the queue of `uv__run_timers` is the list of the numbers that it links.
-- `none` is a run into NULL inside the heap.
pub mod Calls
pub mod Collect
pub mod Invariant
pub mod Next
pub mod Run
pub mod Start
pub mod Stop
mod Tests
use mathlib.Core.Option
use sebbu_c_libuv.Base.{
  zero, suc, ◌++◌, length, ℕ, ◌+◌, ◌-◌, ◌%◌, ◌^◌, Bool, true, false, not, ◌||◌, Option, none, some,
  List, [], ◌∷◌, ltb, leb, ◌==◌, if◌then◌else◌,
}
use sebbu_c_libuv.Handle.{Flags, is_closing, handle_init, handle_start, handle_stop}
use sebbu_c_libuv.Heap.{Heap, heap_min, heap_insert, heap_remove}

-- `uv_timer_t`; a callback is named by a number, and `none` is NULL.
pub record Timer : Type 0 where
  pub timer_cb : Option ℕ
  pub timeout : ℕ
  pub repeat : ℕ
  pub start_id : ℕ
  pub flags : Flags

-- The fields of `uv_loop_t` that timers use, and the nodes of the ready queue.
pub record Loop : Type 0 where
  pub time : ℕ
  pub timer_counter : ℕ
  pub timer_heap : Heap ℕ
  pub active_handles : ℕ
  pub timers : ℕ → Timer
  pub ready : List ℕ

pub data Status : Type 0 where
  ok einval : Status

abbrev pub uint64_max : ℕ
uint64_max = 2 ^ 64 - 1

abbrev pub int_max : ℕ
int_max = 2 ^ 31 - 1

abbrev pub update : (ℕ → Timer) → ℕ → Timer → ℕ → Timer
update f i t j = if j == i then t else f j

unfoldable pub timer_less_than : (ℕ → Timer) → ℕ → ℕ → Bool
timer_less_than timers a b =
    if ltb (timers a).timeout (timers b).timeout
    then true
    else if ltb (timers b).timeout (timers a).timeout
    then false
    else ltb (timers a).start_id (timers b).start_id

unfoldable pub uv_timer_init : ℕ → Loop → Loop
uv_timer_init i s =
    let t : Timer = record {
      timer_cb = none;
      timeout = 0;
      repeat = 0;
      start_id = (s.timers i).start_id;
      flags = handle_init;
    } in
    record s { timers = update s.timers i t }

-- `uv__handle_start` and `uv__handle_stop` on a timer.
unfoldable pub start_handle : ℕ → Loop → Loop
start_handle i s =
    let (f, n) = handle_start (s.timers i).flags s.active_handles in
    record s { timers = update s.timers i (record (s.timers i) { flags = f }); active_handles = n }

unfoldable pub stop_handle : ℕ → Loop → Loop
stop_handle i s =
    let (f, n) = handle_stop (s.timers i).flags s.active_handles in
    record s { timers = update s.timers i (record (s.timers i) { flags = f }); active_handles = n }

-- `uv__queue_remove` on the ready queue; a node that is in no queue stays alone.
unfoldable pub unlink : ℕ → List ℕ → List ℕ
unlink i [] = []
unlink i (j ∷ js) = if j == i then js else j ∷ unlink i js

unfoldable pub uv_timer_stop : ℕ → Loop → Option Loop
uv_timer_stop i s =
    if (s.timers i).flags.active
    then elim (heap_remove ◌==◌ (timer_less_than s.timers) s.timer_heap i) [
      | none ↦ none
      | some h ↦ some (stop_handle i (record s { timer_heap = h }))
    ]
    else some (record s { ready = unlink i s.ready })

-- The due time, in uint64_t.
unfoldable pub clamped_timeout : ℕ → ℕ → ℕ
clamped_timeout time timeout =
    let sum = (time + timeout) % 2 ^ 64 in if ltb sum timeout then uint64_max else sum

-- What follows the stop in `uv_timer_start`.
unfoldable pub arm : ℕ → ℕ → ℕ → ℕ → Loop → Option Loop
arm i cb timeout repeat s =
    let t = record (s.timers i) {
      timer_cb = some cb;
      timeout = clamped_timeout s.time timeout;
      repeat = repeat;
      start_id = s.timer_counter;
    } in
    let timers = update s.timers i t in
    elim (heap_insert (timer_less_than timers) s.timer_heap i) [
      | none ↦ none
      | some h ↦ some (
          start_handle i (record s {
            timers = timers;
            timer_counter = (s.timer_counter + 1) % 2 ^ 64;
            timer_heap = h;
          }))
    ]

unfoldable pub uv_timer_start : ℕ → Option ℕ → ℕ → ℕ → Loop → Option (Status × Loop)
uv_timer_start i none timeout repeat s = some (einval, s)
uv_timer_start i (some cb) timeout repeat s =
    if is_closing (s.timers i).flags then some (einval, s) else elim (uv_timer_stop i s) [
      | none ↦ none
      | some s' ↦ elim (arm i cb timeout repeat s') [ none ↦ none | some s'' ↦ some (ok, s'') ]
    ]

-- The results of the two calls inside are not looked at.
unfoldable pub uv_timer_again : ℕ → Loop → Option (Status × Loop)
uv_timer_again i s = elim ((s.timers i).timer_cb) [
  | none ↦ some (einval, s)
  | some cb ↦
      let repeat = (s.timers i).repeat in
      if repeat == 0 then some (ok, s) else elim (uv_timer_stop i s) [
        | none ↦ none
        | some s' ↦ elim (uv_timer_start i (some cb) repeat repeat s') [
          | none ↦ none
          | some (_, s'') ↦ some (ok, s'')
        ]
      ]
]

unfoldable pub uv_timer_set_repeat : ℕ → ℕ → Loop → Loop
uv_timer_set_repeat i repeat s = record s {
  timers = update s.timers i (record (s.timers i) { repeat = repeat });
}

unfoldable pub uv_timer_get_repeat : ℕ → Loop → ℕ
uv_timer_get_repeat i s = (s.timers i).repeat

unfoldable pub uv_timer_get_due_in : ℕ → Loop → ℕ
uv_timer_get_due_in i s =
    if leb (s.timers i).timeout s.time then 0 else (s.timers i).timeout - s.time

-- `none` is -1, to block without a limit.
unfoldable pub uv__next_timeout : Loop → Option ℕ
uv__next_timeout s = elim (heap_min s.timer_heap) [
  | none ↦ none
  | some i ↦
      if leb (s.timers i).timeout s.time
      then some 0
      else (let diff = (s.timers i).timeout - s.time in
          if ltb int_max diff then some int_max else some diff)
]

unfoldable pub uv__timer_close : ℕ → Loop → Option Loop
uv__timer_close i s = uv_timer_stop i s

-- What a callback may do to timers. `close` is `uv_close` on a timer, which asserts that the timer is
-- not closing; `none` is an assertion that fails.
pub data Call : Type 0 where
  start : (i cb timeout repeat : ℕ) → Call
  stop : ℕ → Call
  again : ℕ → Call
  set_repeat : (i repeat : ℕ) → Call
  close : ℕ → Call

unfoldable pub set_closing : ℕ → Loop → Option Loop
set_closing i s =
    let t = s.timers i in
    if is_closing t.flags
    then none
    else some (record s {
      timers = update s.timers i (record t { flags = record (t.flags) { closing = true } });
    })

unfoldable pub run_call : Call → Loop → Option Loop
run_call (start i cb timeout repeat) s =
    Option.map (λ r. r.1) (uv_timer_start i (some cb) timeout repeat s)
run_call (stop i) s = uv_timer_stop i s
run_call (again i) s = Option.map (λ r. r.1) (uv_timer_again i s)
run_call (set_repeat i repeat) s = some (uv_timer_set_repeat i repeat s)
run_call (close i) s = elim (set_closing i s) [ none ↦ none | some s' ↦ uv__timer_close i s' ]

unfoldable pub run_calls : List Call → Loop → Option Loop
run_calls [] s = some s
run_calls (c ∷ cs) s = elim (run_call c s) [ none ↦ none | some s' ↦ run_calls cs s' ]

-- The first loop of `uv__run_timers`: the due timers leave the heap for the ready queue.
unfoldable pub collect : ℕ → Loop → Option Loop
collect zero s = none
collect (suc fuel) s = elim (heap_min s.timer_heap) [
  | none ↦ some s
  | some i ↦ if ltb s.time (s.timers i).timeout then some s else elim (uv_timer_stop i s) [
    | none ↦ none
    | some s' ↦ collect fuel (record s' { ready = s'.ready ++ i ∷ [] })
  ]
]

-- The second loop. `script cb i s` is what the callback `cb` does when it is called for the timer
-- `i` in the state `s`; the numbers of the timers whose callbacks were called are the second part.
unfoldable pub fire : (ℕ → ℕ → Loop → List Call) → ℕ → Loop → Option (Loop × List ℕ)
fire script zero s = none
fire script (suc fuel) s = elim (s.ready) [
  | [] ↦ some (s, [])
  | i ∷ rest ↦ elim (uv_timer_again i (record s { ready = rest })) [
    | none ↦ none
    | some (_, s1) ↦ elim ((s1.timers i).timer_cb) [
      | none ↦ none
      | some cb ↦ elim (run_calls (script cb i s1) s1) [
        | none ↦ none
        | some s2 ↦ Option.map (λ r. (r.0, i ∷ r.1)) (fire script fuel s2)
      ]
    ]
  ]
]

unfoldable pub uv__run_timers : (ℕ → ℕ → Loop → List Call) → Loop → Option (Loop × List ℕ)
uv__run_timers script s = elim (collect (s.timer_heap.nelts + 1) (record s { ready = [] })) [
  | none ↦ none
  | some s' ↦ fire script (length s'.ready + 1) s'
]
