-- ===== src/Timer/Start.antt =====
-- timer.c: uv_timer_start and uv_timer_again.
use Prim.Native.Nat.{min}
use mathlib.Core.Path.{subst}
use sebbu_c_libuv.Base.{
  ℕ, ◌+◌, ◌%◌, ◌^◌, ◌<◌, ◌≡◌, ◌≢◌, ◌⊎◌, refl, ap, ◌∙◌, true, false, Option, none, some, arith, ◌==◌,
  if◌then◌else◌, inl, inr,
}
use sebbu_c_libuv.Handle.{is_closing, handle_start}
use sebbu_c_libuv.Heap.{Heap, heap_insert}
use sebbu_c_libuv.Heap.Insert.{Inserted, heap_insert-Inserted}
use sebbu_c_libuv.Queue.Ring.{◌∉◌}
use sebbu_c_libuv.Timer.{
  Timer, Loop, Status, ok, einval, update, timer_less_than, start_handle, uv_timer_stop, uint64_max,
  clamped_timeout, arm, uv_timer_start, uv_timer_again, unlink,
}
use sebbu_c_libuv.Timer.Invariant.{IsLoop, timer_less_than-IsLessThan, IsHeap-timers}
use sebbu_c_libuv.Timer.Stop.{SameTimer, SameTimer-trans, uv_timer_stop-Stopped}

-- The due time is the sum, or the largest uint64_t if that is out of range.
pub clamped_timeout-min :
    (time timeout : ℕ)
    → time < 2 ^ 64
    → timeout < 2 ^ 64
    → clamped_timeout time timeout ≡ min (time + timeout) uint64_max
unfolding clamped_timeout
clamped_timeout-min time timeout h k = ground arith

-- The timer `i` of `s` has been started in `g`.
pub record Started (s : Loop) (i cb timeout repeat : ℕ) (g : Loop) : Type 0 where
  pub valid : IsLoop g
  pub active : (g.timers i).flags.active ≡ true
  pub timer_cb : (g.timers i).timer_cb ≡ some cb
  pub due : (g.timers i).timeout ≡ clamped_timeout s.time timeout
  pub repeats : (g.timers i).repeat ≡ repeat
  pub start_id : (g.timers i).start_id ≡ s.timer_counter
  pub others :
      (j : ℕ)
      → i ≢ j
      → SameTimer (s.timers j) (g.timers j)
        × ((g.timers j).flags.active ≡ (s.timers j).flags.active)
  pub closing : (j : ℕ) → (g.timers j).flags.closing ≡ (s.timers j).flags.closing
  pub time : g.time ≡ s.time
  pub counter : g.timer_counter ≡ (s.timer_counter + 1) % 2 ^ 64
  pub ready : g.ready ≡ (if (s.timers i).flags.active then s.ready else unlink i s.ready)
  pub size : g.timer_heap.nelts ≡ s.timer_heap.nelts + (if (s.timers i).flags.active then 0 else 1)

start_handle-timers :
    (i : ℕ) (s : Loop) (j : ℕ)
    → SameTimer (s.timers j) ((start_handle i s).timers j)
      × (((start_handle i s).timers j).flags.active
          ≡ (if j == i then true else (s.timers j).flags.active))
unfolding start_handle handle_start
start_handle-timers i s j = ground arith

update_ne : (f : ℕ → Timer) (i : ℕ) (t : Timer) (j : ℕ) → i ≢ j → update f i t j ≡ f j
update_ne f i t j n = ground arith

abbrev new_timer : Loop → ℕ → ℕ → ℕ → ℕ → Timer
new_timer s i cb timeout repeat = record (s.timers i) {
  timer_cb = some cb;
  timeout = clamped_timeout s.time timeout;
  repeat = repeat;
  start_id = s.timer_counter;
}

abbrev armed : Loop → ℕ → ℕ → ℕ → ℕ → Heap ℕ → Loop
armed s i cb timeout repeat h = record s {
  timers = update s.timers i (new_timer s i cb timeout repeat);
  timer_counter = (s.timer_counter + 1) % 2 ^ 64;
  timer_heap = h;
}

arm_run :
    (s : Loop) (i cb timeout repeat : ℕ) (h : Heap ℕ)
    → heap_insert
        (timer_less_than (update s.timers i (new_timer s i cb timeout repeat)))
        s.timer_heap
        i
      ≡ some h
    → arm i cb timeout repeat s ≡ some (start_handle i (armed s i cb timeout repeat h))
unfolding arm
arm_run s i cb timeout repeat h ran = rw (arm, ran)

-- What arming does to a timer that has been stopped.
record Armed (s : Loop) (i cb timeout repeat : ℕ) (g : Loop) : Type 0 where
  valid : IsLoop g
  active : (g.timers i).flags.active ≡ true
  timer_cb : (g.timers i).timer_cb ≡ some cb
  due : (g.timers i).timeout ≡ clamped_timeout s.time timeout
  repeats : (g.timers i).repeat ≡ repeat
  start_id : (g.timers i).start_id ≡ s.timer_counter
  others :
      (j : ℕ)
      → i ≢ j
      → SameTimer (s.timers j) (g.timers j)
        × ((g.timers j).flags.active ≡ (s.timers j).flags.active)
  closing : (j : ℕ) → (g.timers j).flags.closing ≡ (s.timers j).flags.closing
  time : g.time ≡ s.time
  counter : g.timer_counter ≡ (s.timer_counter + 1) % 2 ^ 64
  ready : g.ready ≡ s.ready
  size : g.timer_heap.nelts ≡ s.timer_heap.nelts + 1

module _ (s : Loop) (i cb timeout repeat : ℕ) (v : IsLoop s)
    (off : (s.timers i).flags.active ≡ false) (out : i ∉ s.ready) where
  armed-Armed :
      (h : Heap ℕ)
      → Inserted
          (timer_less_than (update s.timers i (new_timer s i cb timeout repeat)))
          s.timer_heap
          i
          h
      → Armed s i cb timeout repeat (start_handle i (armed s i cb timeout repeat h))
  unfolding start_handle
  armed-Armed h r =
      let a = armed s i cb timeout repeat h in
      let t = start_handle-timers i a in
      record {
        valid = record {
          heap =
              IsHeap-timers a.timers (start_handle i a).timers h
                (λ j k. ((t j).0.timeout, (t j).0.start_id)) r.valid;
          held = λ j. ground (arith, r.contents (◌==◌ j), v.held j, (t j).1);
          idle = λ j k. ground (arith, (t j).1, v.idle j k);
          distinct = v.distinct;
          callable = λ j k. rw ((t j).0.timer_cb) (ground (arith, (t j).1, v.callable j));
          ready_callable = λ j k. rw ((t j).0.timer_cb) (ground (arith, v.ready_callable j k));
        };
        active = ground (arith, (t i).1);
        timer_cb = ground (arith, (t i).0.timer_cb);
        due = ground (arith, (t i).0.timeout);
        repeats = ground (arith, (t i).0.repeat);
        start_id = ground (arith, (t i).0.start_id);
        others = λ j n. (
          subst (λ x. SameTimer x ((start_handle i a).timers j))
              (update_ne s.timers i (new_timer s i cb timeout repeat) j n) (t j).0,
          ground (arith, (t j).1),
        );
        closing = λ j. ground (arith, (t j).0.closing);
        time = refl;
        counter = refl;
        ready = refl;
        size = r.size;
      }

  -- Arming a timer that has been stopped succeeds.
  arm-Armed :
      s.timer_heap.nelts + 1 < 2 ^ 32
      → (g : Loop) × (arm i cb timeout repeat s ≡ some g) × Armed s i cb timeout repeat g
  arm-Armed room =
      let new = update s.timers i (new_timer s i cb timeout repeat) in
      let (h, ran, inserted) =
        heap_insert-Inserted (timer_less_than-IsLessThan new) s.timer_heap i
          (IsHeap-timers s.timers new s.timer_heap (λ j k. ground (arith, v.held j)) v.heap) room in
      (
        start_handle i (armed s i cb timeout repeat h),
        arm_run s i cb timeout repeat h ran,
        armed-Armed h inserted,
      )

-- A closing timer, or none as the callback, is refused, and nothing changes.
pub uv_timer_start-einval :
    (s : Loop) (i : ℕ) (cb : Option ℕ) (timeout repeat : ℕ)
    → (cb ≡ none) ⊎ (is_closing (s.timers i).flags ≡ true)
    → uv_timer_start i cb timeout repeat s ≡ some (einval, s)
unfolding uv_timer_start
uv_timer_start-einval s i none timeout repeat h = refl
uv_timer_start-einval s i (some cb) timeout repeat (inl h) = cc
uv_timer_start-einval s i (some cb) timeout repeat (inr h) = simp h

start_run :
    (s a g : Loop) (i cb timeout repeat : ℕ)
    → is_closing (s.timers i).flags ≡ false
    → uv_timer_stop i s ≡ some a
    → arm i cb timeout repeat a ≡ some g
    → uv_timer_start i (some cb) timeout repeat s ≡ some (ok, g)
unfolding uv_timer_start
start_run s a g i cb timeout repeat open_ stopped armed_ = simp (open_, stopped, armed_)

module _ (s : Loop) (i cb timeout repeat : ℕ) (v : IsLoop s)
    (open_ : is_closing (s.timers i).flags ≡ false) (room : s.timer_heap.nelts + 1 < 2 ^ 32) where
  -- Otherwise `uv_timer_start` succeeds: the timer, active before or not, is active with the new
  -- callback and repeat, due at the clamped sum, behind all timers started earlier for that time;
  -- no other timer changes.
  pub uv_timer_start-Started :
      (g : Loop) × (uv_timer_start i (some cb) timeout repeat s ≡ some (ok, g))
      × Started s i cb timeout repeat g
  uv_timer_start-Started =
      let (a, stopped, st) = uv_timer_stop-Stopped s i v in
      let (g, ran, ar) =
        arm-Armed a i cb timeout repeat st.valid st.inactive st.out (ground (arith, st.size)) in
      (
        g,
        start_run s a g i cb timeout repeat open_ stopped ran,
        record {
          valid = ar.valid;
          active = ar.active;
          timer_cb = ar.timer_cb;
          due = ar.due ∙ ap (λ t. clamped_timeout t timeout) st.time;
          repeats = ar.repeats;
          start_id = ar.start_id ∙ st.counter;
          others = λ j n.
              (SameTimer-trans (st.same j) (ar.others j n).0, (ar.others j n).1 ∙ st.others j n);
          closing = λ j. ar.closing j ∙ (st.same j).closing;
          time = ar.time ∙ st.time;
          counter = ar.counter ∙ ap (λ c. (c + 1) % 2 ^ 64) st.counter;
          ready = ar.ready ∙ st.ready;
          size = ground (arith, st.size, ar.size);
        },
      )

-- `uv_timer_again` on a timer that was never started is refused, and does nothing without a repeat.
pub uv_timer_again-idle :
    (s : Loop) (i : ℕ)
    → (((s.timers i).timer_cb ≡ none) → uv_timer_again i s ≡ some (einval, s))
      × ((cb : ℕ)
          → (s.timers i).timer_cb ≡ some cb
          → (s.timers i).repeat ≡ 0
          → uv_timer_again i s ≡ some (ok, s))
unfolding uv_timer_again
uv_timer_again-idle s i = (λ e. rw (uv_timer_again, e), λ cb e z. rw (uv_timer_again, e, z))

pub again_run :
    (s a g : Loop) (i cb : ℕ) (r : Status)
    → (s.timers i).timer_cb ≡ some cb
    → ((s.timers i).repeat == 0) ≡ false
    → uv_timer_stop i s ≡ some a
    → uv_timer_start i (some cb) (s.timers i).repeat (s.timers i).repeat a ≡ some (r, g)
    → uv_timer_again i s ≡ some (ok, g)
unfolding uv_timer_again
again_run s a g i cb r e n stopped started = rw (uv_timer_again, e, n, stopped, started)
