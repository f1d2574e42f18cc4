-- ===== src/Run.antt =====
-- unix/core.c: the phases of the event loop and the closing of handles.
--
-- What callbacks, the poll for events and the phases of other components do to the loop is a
-- function `react` of an event; the events are logged with the state they happen in.
pub mod Poll
pub mod Return
pub mod Finish
pub mod Close
pub mod Pending
mod Tests
use sebbu_c_libuv.Base.{
  ℕ, zero, suc, ◌+◌, Bool, true, false, not, ◌&&◌, ◌||◌, Option, none, some, List, [], ◌∷◌, ◌++◌,
  length, ltb, ◌==◌, if◌then◌else◌,
}
use sebbu_c_libuv.Handle.{Flags, is_closing, handle_unref}
use sebbu_c_libuv.Timer.{uv__next_timeout}
use sebbu_c_libuv.Timer

pub data Kind : Type 0 where
  named_pipe tty tcp udp prepare check idle async timer process fs_event poll fs_poll signal : Kind

pub data Mode : Type 0 where
  run_default run_once run_nowait : Mode

-- The fields of `uv_loop_t`. The count of active handles is the one of `timers`. `running` is the
-- local queue of uv__run_pending; `caught` and `dispatched` are the counts of signal handles. Once an
-- assertion on a handle's closing fails, `aborted` is set and the program has ended there.
pub record Loop : Type 0 where
  pub timers : Timer.Loop
  pub active_reqs : ℕ
  pub pending_queue : List ℕ
  pub running : List ℕ
  pub watcher_queue : List ℕ
  pub idle_handles : List ℕ
  pub closing_handles : List ℕ
  pub stop_flag : Bool
  pub reap_children : Bool
  pub flags : ℕ → Flags
  pub kind : ℕ → Kind
  pub close_cb : ℕ → Bool
  pub caught : ℕ → ℕ
  pub dispatched : ℕ → ℕ
  pub aborted : Bool

-- `io_poll none` waits without a limit.
pub data Event : Type 0 where
  update_time run_timers run_idle run_prepare run_check : Event
  pending_cb : ℕ → Event
  io_poll : Option ℕ → Event
  close_handle stream_destroy udp_finish_close closed : ℕ → Event

pub record Entry : Type 0 where
  pub event : Event
  pub state : Loop

abbrev pub Log : Type 0
Log = List Entry

unfoldable pub uv__loop_alive : Loop → Bool
uv__loop_alive s =
    ltb 0 s.timers.active_handles
    || ltb 0 s.active_reqs
    || not (length s.pending_queue == 0)
    || not (length s.closing_handles == 0)

unfoldable pub uv__backend_timeout : Loop → Option ℕ
uv__backend_timeout s =
    if not s.stop_flag
      && (ltb 0 s.timers.active_handles || ltb 0 s.active_reqs)
      && (length s.pending_queue == 0)
      && (length s.idle_handles == 0)
      && not s.reap_children
      && (length s.closing_handles == 0)
    then uv__next_timeout s.timers
    else some 0

unfoldable pub uv_backend_timeout : Loop → Option ℕ
uv_backend_timeout s = if length s.watcher_queue == 0 then uv__backend_timeout s else some 0

abbrev pub State : Type 0
State = Loop × Log

abbrev pub put {ℓ} : {A : Type ℓ} → (ℕ → A) → ℕ → A → ℕ → A
put f i a j = if j == i then a else f j

-- An assertion.
abbrev pub assert_that : Bool → Loop → Loop
assert_that b s = record s { aborted = if b then s.aborted else true }

-- The flags of a handle that is closing and not closed.
abbrev pub is_half_closed : Flags → Bool
is_half_closed f = f.closing && not f.closed

unfoldable pub uv__make_close_pending : ℕ → Loop → Loop
uv__make_close_pending i s = record (assert_that (is_half_closed (s.flags i)) s) {
  closing_handles = i ∷ s.closing_handles;
}

abbrev pub set_flags : ℕ → Flags → Loop → Loop
set_flags i f s = record s { flags = put s.flags i f }

-- `uv__handle_unref`.
unfoldable pub unref : ℕ → Loop → Loop
unref i s =
    let (f, n) = handle_unref (s.flags i) s.timers.active_handles in
    record (set_flags i f s) { timers = record (s.timers) { active_handles = n } }

unfoldable pub is_trapped : ℕ → Loop → Bool
is_trapped i s = elim (s.kind i) [ signal ↦ ltb (s.dispatched i) (s.caught i) | _ ↦ false ]

abbrev pub poll_timeout : Mode → (can_sleep : Bool) → Loop → Option ℕ
poll_timeout run_default can_sleep s = uv__backend_timeout s
poll_timeout run_once can_sleep s = if can_sleep then uv__backend_timeout s else some 0
poll_timeout run_nowait can_sleep s = some 0

abbrev pub is_default : Mode → Bool
is_default run_default = true
is_default run_once = false
is_default run_nowait = false

module _ (react : Event → Loop → Loop) where
  unfoldable pub occur : Event → State → State
  occur e (s, log) = (react e s, log ++ record { event = e; state = s } ∷ [])

  -- `close_handle` is the function that closes a handle of its kind.
  unfoldable pub uv_close : (i : ℕ) → (close_cb : Bool) → State → State
  uv_close i close_cb (start, log) =
      let s = assert_that (not (is_closing (start.flags i))) start in
      let f = record (s.flags i) { closing = true } in
      let s1 = record (set_flags i f s) { close_cb = put s.close_cb i close_cb } in
      let (s2, log2) = occur (close_handle i) (s1, log) in
      elim (s.kind i) [ fs_poll ↦ (s2, log2) | _ ↦ (uv__make_close_pending i s2, log2) ]

  -- What is left of a handle's own.
  unfoldable pub finish_kind : ℕ → Kind → State → State
  finish_kind i named_pipe s = occur (stream_destroy i) s
  finish_kind i tcp s = occur (stream_destroy i) s
  finish_kind i tty s = occur (stream_destroy i) s
  finish_kind i udp s = occur (udp_finish_close i) s
  finish_kind i prepare s = s
  finish_kind i check s = s
  finish_kind i idle s = s
  finish_kind i async s = s
  finish_kind i timer s = s
  finish_kind i process s = s
  finish_kind i fs_event s = s
  finish_kind i fs_poll s = s
  finish_kind i poll s = s
  finish_kind i signal s = s

  -- `uv__finish_close` behind its assertions.
  unfoldable pub finish_checked : ℕ → State → State
  finish_checked i (s, log) =
      let (s2, log2) =
        finish_kind i (s.kind i) (set_flags i (record (s.flags i) { closed = true }) s, log) in
      let s3 = unref i s2 in
      if is_trapped i s
      then (uv__make_close_pending i s, log)
      else if s3.close_cb i
      then occur (closed i) (s3, log2)
      else (s3, log2)

  unfoldable pub uv__finish_close : ℕ → State → State
  uv__finish_close i (s, log) = finish_checked i (assert_that (is_half_closed (s.flags i)) s, log)

  unfoldable pub closing_loop : List ℕ → State → State
  closing_loop [] s = s
  closing_loop (p ∷ ps) s = closing_loop ps (uv__finish_close p s)

  unfoldable pub uv__run_closing_handles : State → State
  uv__run_closing_handles (s, log) =
      closing_loop s.closing_handles (record s { closing_handles = [] }, log)

  unfoldable pub pending_loop : ℕ → State → State
  pending_loop zero s = s
  pending_loop (suc fuel) (s, log) = elim (s.running) [
    | [] ↦ (s, log)
    | w ∷ rest ↦ pending_loop fuel (occur (pending_cb w) (record s { running = rest }, log))
  ]

  -- The local queue only shrinks, so that its length is enough.
  unfoldable pub uv__run_pending : State → State
  uv__run_pending (s, log) =
      pending_loop (length s.pending_queue)
        (record s { pending_queue = []; running = s.pending_queue }, log)

  -- The rounds behind the poll.
  unfoldable pub again_pending : ℕ → State → State
  again_pending zero s = s
  again_pending (suc rounds) s =
      let next = again_pending rounds (uv__run_pending s) in
      if length s.0.pending_queue == 0 then s else next

  -- The body of the loop of `uv_run`, up to the poll and behind it.
  unfoldable pub before_poll : State → State
  before_poll s = occur run_prepare (occur run_idle (uv__run_pending s))

  unfoldable pub after_poll : State → State
  after_poll s =
      occur run_timers
        (occur update_time (uv__run_closing_handles (occur run_check (again_pending 8 s))))

  unfoldable pub iteration : Mode → State → State
  iteration mode s =
      let can_sleep = (length s.0.pending_queue == 0) && (length s.0.idle_handles == 0) in
      let s1 = before_poll s in after_poll (occur (io_poll (poll_timeout mode can_sleep s1.0)) s1)

  -- `none` is a loop that needs more rounds.
  unfoldable pub run_loop : ℕ → Mode → Bool → State → Option (Bool × State)
  run_loop zero mode r s = if r && not s.0.stop_flag then none else some (r, s)
  run_loop (suc fuel) mode r s =
      let s1 = iteration mode s in
      let alive = uv__loop_alive s1.0 in
      let next = run_loop fuel mode alive s1 in
      if r && not s.0.stop_flag
      then if is_default mode then next else some (alive, s1)
      else some (r, s)

  -- What comes before the loop.
  unfoldable pub before_loop : Mode → State → State
  before_loop mode s =
      let r = uv__loop_alive s.0 in
      let s1 = if r then s else occur update_time s in
      if is_default mode && r && not s1.0.stop_flag
      then occur run_timers (occur update_time s1)
      else s1

  unfoldable pub uv_run : ℕ → Mode → State → Option (Bool × State)
  uv_run fuel mode s = elim (run_loop fuel mode (uv__loop_alive s.0) (before_loop mode s)) [
    | none ↦ none
    | some (r, (g, log)) ↦ some (r, (record g { stop_flag = false }, log))
  ]
