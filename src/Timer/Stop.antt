-- ===== src/Timer/Stop.antt =====
-- timer.c: uv_timer_stop.
use sebbu_c_libuv.Base.{
  ℕ, ◌+◌, ◌≡◌, ◌≢◌, refl, sym, ◌∙◌, true, false, some, arith, ◌==◌, ==_iff, if◌then◌else◌,
  Bool-cases, inl, inr,
}
use sebbu_c_libuv.Handle.{handle_stop}
use sebbu_c_libuv.Heap.{Heap, heap_remove}
use sebbu_c_libuv.Heap.Remove.{Removed, heap_remove-Removed}
use sebbu_c_libuv.Queue.Ring.{◌∉◌}
use sebbu_c_libuv.Timer.{Timer, Loop, timer_less_than, unlink, stop_handle, uv_timer_stop}
use sebbu_c_libuv.Timer.Invariant.{
  IsLoop, timer_less_than-IsLessThan, IsHeap-timers, has-unlink, unlink-IsDistinct,
}

-- Two timers that differ at most in the active flag.
pub record SameTimer (t t' : Timer) : Type 0 where
  pub timer_cb : t'.timer_cb ≡ t.timer_cb
  pub timeout : t'.timeout ≡ t.timeout
  pub repeat : t'.repeat ≡ t.repeat
  pub start_id : t'.start_id ≡ t.start_id
  pub ref : t'.flags.ref ≡ t.flags.ref
  pub closing : t'.flags.closing ≡ t.flags.closing
  pub closed : t'.flags.closed ≡ t.flags.closed

pub SameTimer-refl : (t : Timer) → SameTimer t t
SameTimer-refl t = record {
  timer_cb = refl;
  timeout = refl;
  repeat = refl;
  start_id = refl;
  ref = refl;
  closing = refl;
  closed = refl;
}

pub SameTimer-trans : {t u w : Timer} → SameTimer t u → SameTimer u w → SameTimer t w
SameTimer-trans p q = record {
  timer_cb = q.timer_cb ∙ p.timer_cb;
  timeout = q.timeout ∙ p.timeout;
  repeat = q.repeat ∙ p.repeat;
  start_id = q.start_id ∙ p.start_id;
  ref = q.ref ∙ p.ref;
  closing = q.closing ∙ p.closing;
  closed = q.closed ∙ p.closed;
}

pub SameTimer-sym : {t u : Timer} → SameTimer t u → SameTimer u t
SameTimer-sym p = record {
  timer_cb = sym p.timer_cb;
  timeout = sym p.timeout;
  repeat = sym p.repeat;
  start_id = sym p.start_id;
  ref = sym p.ref;
  closing = sym p.closing;
  closed = sym p.closed;
}

-- The timer `i` of `s` has been stopped in `g`.
pub record Stopped (s : Loop) (i : ℕ) (g : Loop) : Type 0 where
  pub valid : IsLoop g
  pub inactive : (g.timers i).flags.active ≡ false
  pub out : i ∉ g.ready
  pub same : (j : ℕ) → SameTimer (s.timers j) (g.timers j)
  pub others : (j : ℕ) → i ≢ j → (g.timers j).flags.active ≡ (s.timers j).flags.active
  pub time : g.time ≡ s.time
  pub counter : g.timer_counter ≡ s.timer_counter
  pub ready : g.ready ≡ (if (s.timers i).flags.active then s.ready else unlink i s.ready)
  pub size : g.timer_heap.nelts + (if (s.timers i).flags.active then 1 else 0) ≡ s.timer_heap.nelts

-- What `uv__handle_stop` leaves of a timer.
stop_handle-timers :
    (i : ℕ) (s : Loop) (j : ℕ)
    → SameTimer (s.timers j) ((stop_handle i s).timers j)
      × (((stop_handle i s).timers j).flags.active
          ≡ (if j == i then false else (s.timers j).flags.active))
unfolding stop_handle handle_stop
stop_handle-timers i s j = ground arith

stop_run :
    (s : Loop) (i : ℕ) (h : Heap ℕ)
    → (s.timers i).flags.active ≡ true
    → heap_remove ◌==◌ (timer_less_than s.timers) s.timer_heap i ≡ some h
    → uv_timer_stop i s ≡ some (stop_handle i (record s { timer_heap = h }))
unfolding uv_timer_stop
stop_run s i h on ran = simp (on, ran)

module _ (s : Loop) (i : ℕ) (v : IsLoop s) where
  stop_active :
      (s.timers i).flags.active ≡ true
      → (h : Heap ℕ) → Removed ◌==◌ (timer_less_than s.timers) s.timer_heap i h
      → Stopped s i (stop_handle i (record s { timer_heap = h }))
  unfolding stop_handle
  stop_active on h r =
      let a : Loop = record s { timer_heap = h } in
      let t = stop_handle-timers i a in
      record {
        valid = record {
          heap =
              IsHeap-timers s.timers (stop_handle i a).timers h
                (λ j k. ((t j).0.timeout, (t j).0.start_id)) r.valid;
          held = λ j. ground (arith, r.contents (◌==◌ j), v.held j, (t j).1);
          idle = λ j k. ground (arith, (t j).1, v.idle j k);
          distinct = v.distinct;
          callable = λ j k. rw ((t j).0.timer_cb) (v.callable j (ground (arith, (t j).1)));
          ready_callable = λ j k. rw ((t j).0.timer_cb) (v.ready_callable j k);
        };
        inactive = ground (arith, (t i).1);
        out = ground (arith, v.idle i, on);
        same = λ j. (t j).0;
        others = λ j n. ground (arith, (t j).1);
        time = refl;
        counter = refl;
        ready = rw on;
        size = rw on r.size;
      }

  stop_inactive :
      (s.timers i).flags.active ≡ false → Stopped s i (record s { ready = unlink i s.ready })
  stop_inactive off = record {
    valid = record {
      heap = v.heap;
      held = v.held;
      idle = λ j k. v.idle j (ground (arith, has-unlink j i s.ready, v.distinct));
      distinct = unlink-IsDistinct i s.ready v.distinct;
      callable = v.callable;
      ready_callable =
          λ j k. v.ready_callable j (ground (arith, has-unlink j i s.ready, v.distinct));
    };
    inactive = off;
    out = ground (arith, has-unlink i i s.ready, v.distinct);
    same = λ j. SameTimer-refl (s.timers j);
    others = λ j n. refl;
    time = refl;
    counter = refl;
    ready = rw off;
    size = rw off (omega arith);
  }

  -- `uv_timer_stop` always succeeds, whether or not the timer is active: the timer is in neither the
  -- heap nor the ready queue afterwards, and nothing else about any timer changes.
  pub uv_timer_stop-Stopped : (g : Loop) × (uv_timer_stop i s ≡ some g) × Stopped s i g
  unfolding uv_timer_stop
  uv_timer_stop-Stopped = elim (Bool-cases ((s.timers i).flags.active)) [
    | inl on ↦
        let (h, ran, removed) =
          heap_remove-Removed (timer_less_than-IsLessThan s.timers) ==_iff s.timer_heap i v.heap
            (rw (v.held i, on) (omega arith)) in
        (
          stop_handle i (record s { timer_heap = h }),
          stop_run s i h on ran,
          stop_active on h removed,
        )
    | inr off ↦ (record s { ready = unlink i s.ready }, rw off, stop_inactive off)
  ]
