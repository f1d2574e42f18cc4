-- ===== src/Run/Tests.antt =====
-- unix/core.c: runs of a loop, and the theorems at it.
use sebbu_c_libuv.Base.{
  ℕ, ◌-◌, ◌≡◌, ◌⊎◌, refl, Bool, true, false, not, Option, none, some, List, [], ◌∷◌, ◌++◌, ◌==◌,
  if◌then◌else◌, arith,
}
use sebbu_c_libuv.Base.Sublist.{IsSublist-refl}
use sebbu_c_libuv.Handle.{Flags, handle_unref}
use sebbu_c_libuv.Heap.{null, heap_min}
use sebbu_c_libuv.Queue.Ring.{◌∈◌}
use sebbu_c_libuv.Timer
use sebbu_c_libuv.Timer.{uv__next_timeout}
use sebbu_c_libuv.Run.{
  timer, signal, run_default, Loop, Event, update_time, run_timers, run_idle, run_prepare,
  run_check, pending_cb, io_poll, close_handle, stream_destroy, udp_finish_close, closed, Log,
  State, uv__loop_alive, uv__backend_timeout, unref, uv__make_close_pending, occur, finish_kind,
  is_trapped, finish_checked, uv__finish_close, closing_loop, uv__run_closing_handles, pending_loop,
  uv__run_pending, again_pending, before_poll, after_poll, iteration, is_default, run_loop,
  before_loop, uv_run,
}
use sebbu_c_libuv.Run.Poll.{Sound}
use sebbu_c_libuv.Run.Return.{RunsDown, uv_run-Returned}
use sebbu_c_libuv.Run.Close.{Spares, close_all, uv__run_closing_handles-closes}
use sebbu_c_libuv.Run.Finish.{IsHalfClosed, closes, due}
use sebbu_c_libuv.Run.Pending.{pendings, Drained, Withdraws, uv__run_pending-pendings}

abbrev no_flags : ℕ → Flags
no_flags i = record { active = false; ref = true; closing = true; closed = false }

abbrev timers : Timer.Loop
timers = record {
  time = 0;
  timer_counter = 0;
  timer_heap = record { min = null; nelts = 0 };
  active_handles = 0;
  timers =
      λ i. record { timer_cb = none; timeout = 0; repeat = 0; start_id = 0; flags = no_flags i };
  ready = [];
}

-- Two requests are active, watcher 4 is pending, and three handles are closing: handle 1 is a signal
-- handle with a signal to be delivered, and handle 2 has no callback.
abbrev loop : Loop
loop = record {
  timers = timers;
  active_reqs = 2;
  pending_queue = 4 ∷ [];
  running = [];
  watcher_queue = [];
  idle_handles = [];
  closing_handles = 3 ∷ 2 ∷ 1 ∷ [];
  stop_flag = false;
  reap_children = false;
  flags = no_flags;
  kind = λ i. if i == 1 then signal else timer;
  close_cb = λ i. not (i == 2);
  caught = λ i. 1;
  dispatched = λ i. 0;
  aborted = false;
}

-- A request is done in each round, and the signal is delivered when the loop polls.
abbrev work : Event → Loop → Loop
work run_check s = record s { active_reqs = s.active_reqs - 1 }
work (io_poll t) s = record s { dispatched = λ i. s.caught i }
work e s = s

abbrev polls : Log → List (Option ℕ)
polls [] = []
polls (e ∷ es) = elim (e.event) [ io_poll t ↦ t ∷ polls es | _ ↦ polls es ]

abbrev outcome : Option (Bool × State) → Option (Bool × List ℕ × List ℕ × List (Option ℕ))
outcome none = none
outcome (some (r, (g, log))) = some (r, pendings log, closes log, polls log)

-- The first round must not sleep, since handles are closing; the second one may, without a limit.
run_two :
    outcome (uv_run work 2 run_default (loop, []))
    ≡ some (false, 4 ∷ [], 3 ∷ 1 ∷ [], some 0 ∷ none ∷ [])
unfolding uv_run run_loop before_loop iteration before_poll after_poll uv__run_closing_handles
    closing_loop uv__finish_close finish_checked uv__make_close_pending finish_kind is_trapped unref
    uv__run_pending pending_loop again_pending occur uv__loop_alive uv__backend_timeout
    uv__next_timeout handle_unref heap_min
run_two = refl

-- A timer that stops the loop.
abbrev stopper : Event → Loop → Loop
stopper run_timers s = record s { stop_flag = true }
stopper e s = s

stopper-RunsDown : RunsDown stopper run_default (λ s. 0)
unfolding iteration after_poll occur
stopper-RunsDown d s going alive h = absurd cc

uv_run-Returned_example :
    (r : Bool) × (g : State) × (uv_run stopper 1 run_default (loop, [])
      ≡ some (r, (record (g.0) { stop_flag = false }, g.1)))
    × Sound run_default g.1
    × (r ≡ false → (uv__loop_alive loop ≡ false) ⊎ (uv__loop_alive g.0 ≡ false))
    × (is_default run_default ≡ true → r ≡ true → g.0.stop_flag ≡ true)
uv_run-Returned_example =
    uv_run-Returned stopper run_default (λ s. 0) 1 loop stopper-RunsDown (omega arith)

-- The same loop before the three handles were closed.
abbrev open_loop : Loop
open_loop = record loop { closing_handles = [] }

stopper-Spares : Spares (3 ∷ 2 ∷ 1 ∷ []) stopper
unfolding is_trapped
stopper-Spares i update_time t m =
    (record { trapped = refl; callback = refl; listed = λ h. h }, (refl, λ h. h))
stopper-Spares i run_timers t m =
    (record { trapped = refl; callback = refl; listed = λ h. h }, (refl, λ h. h))
stopper-Spares i run_idle t m =
    (record { trapped = refl; callback = refl; listed = λ h. h }, (refl, λ h. h))
stopper-Spares i run_prepare t m =
    (record { trapped = refl; callback = refl; listed = λ h. h }, (refl, λ h. h))
stopper-Spares i run_check t m =
    (record { trapped = refl; callback = refl; listed = λ h. h }, (refl, λ h. h))
stopper-Spares i (pending_cb w) t m =
    (record { trapped = refl; callback = refl; listed = λ h. h }, (refl, λ h. h))
stopper-Spares i (io_poll d) t m =
    (record { trapped = refl; callback = refl; listed = λ h. h }, (refl, λ h. h))
stopper-Spares i (close_handle j) t m =
    (record { trapped = refl; callback = refl; listed = λ h. h }, (refl, λ h. h))
stopper-Spares i (stream_destroy j) t m =
    (record { trapped = refl; callback = refl; listed = λ h. h }, (refl, λ h. h))
stopper-Spares i (udp_finish_close j) t m =
    (record { trapped = refl; callback = refl; listed = λ h. h }, (refl, λ h. h))
stopper-Spares i (closed j) t m =
    (record { trapped = refl; callback = refl; listed = λ h. h }, (refl, λ h. h))

closing_now : (i : ℕ) → i ∈ (3 ∷ 2 ∷ 1 ∷ []) → IsHalfClosed i open_loop
closing_now i m = refl

uv__run_closing_handles-closes_example :
    (closes ((uv__run_closing_handles stopper (close_all (1 ∷ 2 ∷ 3 ∷ []) open_loop, [])).1)
      ≡ [] ++ due open_loop (3 ∷ 2 ∷ 1 ∷ []))
    × ((i : ℕ)
        → i ∈ (3 ∷ 2 ∷ 1 ∷ [])
        → is_trapped i open_loop ≡ true
        → i
          ∈ (uv__run_closing_handles stopper
              (close_all (1 ∷ 2 ∷ 3 ∷ []) open_loop, [])).0.closing_handles)
    × ((uv__run_closing_handles stopper (close_all (1 ∷ 2 ∷ 3 ∷ []) open_loop, [])).0.aborted
        ≡ false)
uv__run_closing_handles-closes_example =
    uv__run_closing_handles-closes stopper (1 ∷ 2 ∷ 3 ∷ []) open_loop [] stopper-Spares
      (refl, (refl, (refl, tt))) closing_now refl

stopper-Withdraws : Withdraws stopper
stopper-Withdraws update_time s = IsSublist-refl s.running
stopper-Withdraws run_timers s = IsSublist-refl s.running
stopper-Withdraws run_idle s = IsSublist-refl s.running
stopper-Withdraws run_prepare s = IsSublist-refl s.running
stopper-Withdraws run_check s = IsSublist-refl s.running
stopper-Withdraws (pending_cb w) s = IsSublist-refl s.running
stopper-Withdraws (io_poll d) s = IsSublist-refl s.running
stopper-Withdraws (close_handle j) s = IsSublist-refl s.running
stopper-Withdraws (stream_destroy j) s = IsSublist-refl s.running
stopper-Withdraws (udp_finish_close j) s = IsSublist-refl s.running
stopper-Withdraws (closed j) s = IsSublist-refl s.running

uv__run_pending-pendings_example :
    (g : State) × (uv__run_pending stopper (loop, []) ≡ g) × Drained stopper (4 ∷ []) [] g
uv__run_pending-pendings_example =
    uv__run_pending-pendings stopper loop [] stopper-Withdraws (refl, tt)
