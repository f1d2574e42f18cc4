-- ===== src/Run/Poll.antt =====
-- unix/core.c: when and how long the event loop may sleep.
use sebbu_c_libuv.Base.{
  ℕ, zero, suc, ◌≡◌, ◌≢◌, ◌⊎◌, inl, inr, refl, Bool, true, false, not, ◌&&◌, ◌||◌, Option, some,
  List, [], ◌∷◌, ◌++◌, length, ltb, ◌==◌, if◌then◌else◌, arith, Bool-cases, List-cases,
}
use sebbu_c_libuv.Timer.{uv__next_timeout}
use sebbu_c_libuv.Run.{
  assert_that, is_half_closed, finish_checked, Kind, named_pipe, tty, tcp, udp, prepare, check,
  idle, async, timer, process, fs_event, poll, fs_poll, signal, Mode, run_default, run_once,
  run_nowait, Loop, Event, update_time, run_timers, run_idle, run_prepare, run_check, pending_cb,
  io_poll, stream_destroy, udp_finish_close, closed, Entry, Log, State, uv__loop_alive,
  uv__backend_timeout, set_flags, unref, occur, finish_kind, is_trapped, uv__finish_close,
  closing_loop, uv__run_closing_handles, pending_loop, uv__run_pending, again_pending, poll_timeout,
  before_poll, after_poll, iteration, is_default, before_loop,
}

-- The loop may sleep until the next timer.
pub record MaySleep (mode : Mode) (t : Option ℕ) (s : Loop) : Type 0 where
  pub blocking : mode ≢ run_nowait
  pub going : s.stop_flag ≡ false
  pub alive : (ltb 0 s.timers.active_handles || ltb 0 s.active_reqs) ≡ true
  pub no_pending : s.pending_queue ≡ []
  pub no_idle : s.idle_handles ≡ []
  pub no_closing : s.closing_handles ≡ []
  pub no_children : s.reap_children ≡ false
  pub timeout : t ≡ uv__next_timeout s.timers

abbrev pub EventFits : Mode → Event → Loop → Type 0
EventFits mode (io_poll t) s = (t ≡ some 0) ⊎ MaySleep mode t s
EventFits mode e s = Unit

-- Each poll of the log is without a wait, or it may sleep.
abbrev pub Sound : Mode → Log → Type 0
Sound mode [] = Unit
Sound mode (e ∷ es) = EventFits mode e.event e.state × Sound mode es

Sound-append :
    (mode : Mode) (log : Log) (e : Entry)
    → Sound mode log
    → EventFits mode e.event e.state
    → Sound mode (log ++ e ∷ [])
Sound-append mode [] e h k = (k, tt)
Sound-append mode (x ∷ log) e h k = (h.0, Sound-append mode log e h.1 k)

length_empty {ℓ} : {A : Type ℓ} (xs : List A) → (length xs == 0) ≡ true → xs ≡ []
length_empty [] h = refl
length_empty (x ∷ xs) h = absurd (ground arith)

backend-MaySleep :
    (mode : Mode) (s : Loop)
    → mode ≢ run_nowait
    → (uv__backend_timeout s ≡ some 0) ⊎ MaySleep mode (uv__backend_timeout s) s
unfolding uv__backend_timeout
backend-MaySleep mode s m =
    elim (Bool-cases (
      not s.stop_flag
      && (ltb 0 s.timers.active_handles || ltb 0 s.active_reqs)
      && (length s.pending_queue == 0)
      && (length s.idle_handles == 0)
      && not s.reap_children
      && (length s.closing_handles == 0))) [
        | inr busy ↦ inl (rw busy refl)
        | inl rests ↦ inr (record {
          blocking = m;
          going = ground arith;
          alive = ground arith;
          no_pending = length_empty s.pending_queue (ground arith);
          no_idle = length_empty s.idle_handles (ground arith);
          no_closing = length_empty s.closing_handles (ground arith);
          no_children = ground arith;
          timeout = rw rests refl;
        })
      ]

poll_timeout-fits :
    (mode : Mode) (can_sleep : Bool) (s : Loop)
    → (poll_timeout mode can_sleep s ≡ some 0) ⊎ MaySleep mode (poll_timeout mode can_sleep s) s
poll_timeout-fits run_default can_sleep s = backend-MaySleep run_default s (λ e. cc)
poll_timeout-fits run_once true s = backend-MaySleep run_once s (λ e. cc)
poll_timeout-fits run_once false s = inl refl
poll_timeout-fits run_nowait can_sleep s = inl refl

module _ (react : Event → Loop → Loop) (mode : Mode) where
  abbrev pub SoundState : State → Type 0
  SoundState s = Sound mode s.1

  occur-Sound :
      (e : Event) (s : State) → EventFits mode e s.0 → SoundState s → SoundState (occur react e s)
  unfolding occur
  occur-Sound e (s, log) fits h = Sound-append mode log (record { event = e; state = s }) h fits

  finish_kind-Sound :
      (i : ℕ) (k : Kind) (s : State) → SoundState s → SoundState (finish_kind react i k s)
  unfolding finish_kind
  finish_kind-Sound i named_pipe s h = occur-Sound (stream_destroy i) s tt h
  finish_kind-Sound i tcp s h = occur-Sound (stream_destroy i) s tt h
  finish_kind-Sound i tty s h = occur-Sound (stream_destroy i) s tt h
  finish_kind-Sound i udp s h = occur-Sound (udp_finish_close i) s tt h
  finish_kind-Sound i prepare s h = h
  finish_kind-Sound i check s h = h
  finish_kind-Sound i idle s h = h
  finish_kind-Sound i async s h = h
  finish_kind-Sound i timer s h = h
  finish_kind-Sound i process s h = h
  finish_kind-Sound i fs_event s h = h
  finish_kind-Sound i fs_poll s h = h
  finish_kind-Sound i poll s h = h
  finish_kind-Sound i signal s h = h

  finish_checked-Sound : (i : ℕ) (s : State) → SoundState s → SoundState (finish_checked react i s)
  unfolding finish_checked
  finish_checked-Sound i (s, log) h =
      let one = set_flags i (record (s.flags i) { closed = true }) s in
      let two = finish_kind react i (s.kind i) (one, log) in
      let k = finish_kind-Sound i (s.kind i) (one, log) h in
      elim (Bool-cases (is_trapped i s)) [
        | inl trapped ↦ rw trapped h
        | inr free ↦ elim (Bool-cases ((unref i two.0).close_cb i)) [
          | inl called ↦ rw (free, called) (occur-Sound (closed i) (unref i two.0, two.1) tt k)
          | inr silent ↦ rw (free, silent) k
        ]
      ]

  uv__finish_close-Sound :
      (i : ℕ) (s : State) → SoundState s → SoundState (uv__finish_close react i s)
  unfolding uv__finish_close
  uv__finish_close-Sound i (s, log) h =
      finish_checked-Sound i (assert_that (is_half_closed (s.flags i)) s, log) h

  closing_loop-Sound :
      (ps : List ℕ) (s : State) → SoundState s → SoundState (closing_loop react ps s)
  unfolding closing_loop
  closing_loop-Sound [] s h = h
  closing_loop-Sound (p ∷ ps) s h =
      closing_loop-Sound ps (uv__finish_close react p s) (uv__finish_close-Sound p s h)

  pending_loop-Sound :
      (fuel : ℕ) (s : State) → SoundState s → SoundState (pending_loop react fuel s)
  unfolding pending_loop
  pending_loop-Sound zero s h = h
  pending_loop-Sound (suc fuel) (s, log) h = elim (List-cases s.running) [
    | inl e ↦ rw e h
    | inr (w, rest, e) ↦
        let s1 : State = (record s { running = rest }, log) in
        rw e (
          pending_loop-Sound fuel (occur react (pending_cb w) s1)
            (occur-Sound (pending_cb w) s1 tt h))
  ]

  uv__run_pending-Sound : (s : State) → SoundState s → SoundState (uv__run_pending react s)
  unfolding uv__run_pending
  uv__run_pending-Sound (s, log) h =
      pending_loop-Sound (length s.pending_queue)
        (record s { pending_queue = []; running = s.pending_queue }, log) h

  again_pending-Sound :
      (rounds : ℕ) (s : State) → SoundState s → SoundState (again_pending react rounds s)
  unfolding again_pending
  again_pending-Sound zero s h = h
  again_pending-Sound (suc rounds) s h = elim (Bool-cases (length s.0.pending_queue == 0)) [
    | inl e ↦ rw e h
    | inr e ↦
        rw e (again_pending-Sound rounds (uv__run_pending react s) (uv__run_pending-Sound s h))
  ]

  pub iteration-Sound : (s : State) → SoundState s → SoundState (iteration react mode s)
  unfolding iteration before_poll after_poll uv__run_closing_handles
  iteration-Sound s h =
      let can_sleep = (length s.0.pending_queue == 0) && (length s.0.idle_handles == 0) in
      let s1 = uv__run_pending react s in
      let s2 = occur react run_idle s1 in
      let s3 = occur react run_prepare s2 in
      let t = poll_timeout mode can_sleep s3.0 in
      let s4 = occur react (io_poll t) s3 in
      let s5 = again_pending react 8 s4 in
      let s6 = occur react run_check s5 in
      let s7 =
        closing_loop react s6.0.closing_handles (record (s6.0) { closing_handles = [] }, s6.1) in
      let s8 = occur react update_time s7 in
      let h3 =
        occur-Sound run_prepare s2 tt (occur-Sound run_idle s1 tt (uv__run_pending-Sound s h)) in
      let h4 = occur-Sound (io_poll t) s3 (poll_timeout-fits mode can_sleep s3.0) h3 in
      let h6 = occur-Sound run_check s5 tt (again_pending-Sound 8 s4 h4) in
      let h7 =
        closing_loop-Sound s6.0.closing_handles (record (s6.0) { closing_handles = [] }, s6.1) h6 in
      occur-Sound run_timers s8 tt (occur-Sound update_time s7 tt h7)

  if-Sound :
      (b : Bool) (x y : State) → SoundState x → SoundState y → SoundState (if b then x else y)
  if-Sound true x y h k = h
  if-Sound false x y h k = k

  pub before_loop-Sound : (s : State) → SoundState s → SoundState (before_loop react mode s)
  unfolding before_loop
  before_loop-Sound s h =
      let r = uv__loop_alive s.0 in
      let s1 = if r then s else occur react update_time s in
      let h1 = if-Sound r s (occur react update_time s) h (occur-Sound update_time s tt h) in
      let s2 = occur react update_time s1 in
      if-Sound (is_default mode && r && not s1.0.stop_flag) (occur react run_timers s2) s1
        (occur-Sound run_timers s2 tt (occur-Sound update_time s1 tt h1)) h1
