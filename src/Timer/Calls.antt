-- ===== src/Timer/Calls.antt =====
-- timer.c: every call that a callback may make keeps the invariant.
use sebbu_c_libuv.Base.{
  ℕ, suc, ◌+◌, ◌^◌, ◌<◌, ◌≤◌, ◌≡◌, ◌⊎◌, refl, ◌∙◌, Bool, true, false, some, List, [], ◌∷◌, arith,
  ◌==◌, ==_iff, if◌then◌else◌, Bool-cases, Option-cases, inl, inr, length, ◌++◌,
}
use sebbu_c_libuv.Base.Sublist.{IsSublist, nil, skip, keep, IsSublist-refl, IsSublist-trans}
use sebbu_c_libuv.Handle.{is_closing}
use sebbu_c_libuv.Queue.Ring.{has-append, ◌∈◌, ◌∉◌}
use sebbu_c_libuv.Timer.{
  Loop, Status, ok, einval, uv_timer_stop, uv_timer_start, uv_timer_again, unlink,
  uv_timer_set_repeat, uv__timer_close, set_closing, Call, update, start, stop, again, set_repeat,
  close, run_call, run_calls,
}
use sebbu_c_libuv.Timer.Invariant.{is_some, IsLoop, IsHeap-timers}
use sebbu_c_libuv.Timer.Stop.{Stopped, uv_timer_stop-Stopped}
use sebbu_c_libuv.Timer.Start.{
  Started, uv_timer_start-Started, uv_timer_start-einval, again_run, uv_timer_again-idle,
}

-- The timer that a call is about.
abbrev pub target : Call → ℕ
target (start i cb timeout repeat) = i
target (stop i) = i
target (again i) = i
target (set_repeat i repeat) = i
target (close i) = i

abbrev pub targets : List Call → List ℕ
targets [] = []
targets (c ∷ cs) = target c ∷ targets cs

-- A timer is closed once only.
abbrev pub MayCall : Call → Loop → Type 0
MayCall (close i) s = is_closing ((s.timers i).flags) ≡ false
MayCall c s = Unit

abbrev pub MayCalls : List Call → Loop → Type 0
MayCalls [] s = Unit
MayCalls (c ∷ cs) s = MayCall c s × ((g : Loop) → run_call c s ≡ some g → MayCalls cs g)

-- No timer of the list waits to be called.
abbrev pub IsAloof : List ℕ → Loop → Type 0
IsAloof ts s = (i : ℕ) → i ∈ ts → i ∉ s.ready

-- The loop `g` is valid, with at most `k` more active timers than `s`, and the timers that wait to
-- be called in `g` wait in `s` in the same order; they are all that wait in `s`, if no timer of `ts`
-- does.
pub record Kept (s : Loop) (k : ℕ) (ts : List ℕ) (g : Loop) : Type 0 where
  pub valid : IsLoop g
  pub grown : g.timer_heap.nelts ≤ s.timer_heap.nelts + k
  pub ready : IsSublist g.ready s.ready
  pub time : g.time ≡ s.time
  pub quiet : IsAloof ts s → g.ready ≡ s.ready

unlink-IsSublist : (i : ℕ) (js : List ℕ) → IsSublist (unlink i js) js
unfolding unlink
unlink-IsSublist i [] = nil
unlink-IsSublist i (j ∷ js) = elim (Bool-cases (j == i)) [
  | inl e ↦ rw e (skip (IsSublist-refl js))
  | inr e ↦ rw e (keep (unlink-IsSublist i js))
]

ready-IsSublist :
    (b : Bool) (i : ℕ) (js ks : List ℕ) → ks ≡ (if b then js else unlink i js) → IsSublist ks js
ready-IsSublist true i js ks e = rw e (IsSublist-refl js)
ready-IsSublist false i js ks e = rw e (unlink-IsSublist i js)

Kept-refl : (s : Loop) (k : ℕ) (ts : List ℕ) → IsLoop s → Kept s k ts s
Kept-refl s k ts v = record {
  valid = v;
  grown = omega arith;
  ready = IsSublist-refl s.ready;
  time = refl;
  quiet = λ h. refl;
}

pub Kept-trans :
    (s a g : Loop) (j k : ℕ) (ts us : List ℕ)
    → Kept s j ts a
    → Kept a k us g
    → Kept s (j + k) (ts ++ us) g
Kept-trans s a g j k ts us p q = record {
  valid = q.valid;
  grown = omega (arith, p.grown, q.grown);
  ready = IsSublist-trans p.ready q.ready;
  time = q.time ∙ p.time;
  quiet = λ h.
      let first = p.quiet (λ i m. h i (ground (arith, has-append i ts us))) in
      q.quiet (λ i m. rw first (h i (ground (arith, has-append i ts us)))) ∙ first;
}

pub Kept-weaken :
    (s g : Loop) (j k : ℕ) (ts us : List ℕ)
    → j ≤ k
    → ((i : ℕ) → i ∈ ts → i ∈ us)
    → Kept s j ts g
    → Kept s k us g
Kept-weaken s g j k ts us le sub p = record {
  valid = p.valid;
  grown = omega (arith, p.grown);
  ready = p.ready;
  time = p.time;
  quiet = λ h. p.quiet (λ i m. h i (sub i m));
}

unlink-absent : (i : ℕ) (js : List ℕ) → i ∉ js → unlink i js ≡ js
unfolding unlink
unlink-absent i [] out = refl
unlink-absent i (j ∷ js) out = ground (arith, unlink-absent i js)

quiet_ready :
    (b : Bool) (i : ℕ) (js ks : List ℕ) → ks ≡ (if b then js else unlink i js) → i ∉ js → ks ≡ js
quiet_ready b i js ks e out = ground (arith, unlink-absent i js)

Stopped-Kept : (s : Loop) (i : ℕ) (g : Loop) → Stopped s i g → Kept s 0 (i ∷ []) g
Stopped-Kept s i g st = record {
  valid = st.valid;
  grown = ground (arith, st.size);
  ready = ready-IsSublist ((s.timers i).flags.active) i s.ready g.ready st.ready;
  time = st.time;
  quiet =
      λ h. quiet_ready ((s.timers i).flags.active) i s.ready g.ready st.ready (h i (ground arith));
}

Started-Kept :
    (s : Loop) (i cb timeout repeat : ℕ) (g : Loop)
    → Started s i cb timeout repeat g
    → Kept s 1 (i ∷ []) g
Started-Kept s i cb timeout repeat g st = record {
  valid = st.valid;
  grown = ground (arith, st.size);
  ready = ready-IsSublist ((s.timers i).flags.active) i s.ready g.ready st.ready;
  time = st.time;
  quiet =
      λ h. quiet_ready ((s.timers i).flags.active) i s.ready g.ready st.ready (h i (ground arith));
}

module _ (s : Loop) (v : IsLoop s) (room : s.timer_heap.nelts + 1 < 2 ^ 32) where
  start-Kept :
      (i cb timeout repeat : ℕ)
      → (r : Status) × (g : Loop) × (uv_timer_start i (some cb) timeout repeat s ≡ some (r, g))
        × Kept s 1 (i ∷ []) g
        × (((g.timers i).timer_cb ≡ some cb) ⊎ (g ≡ s))
  start-Kept i cb timeout repeat = elim (Bool-cases (is_closing ((s.timers i).flags))) [
    | inl shut ↦ (
      einval,
      s,
      uv_timer_start-einval s i (some cb) timeout repeat (inr shut),
      Kept-refl s 1 (i ∷ []) v,
      inr refl,
    )
    | inr opened ↦
        let (g, ran, st) = uv_timer_start-Started s i cb timeout repeat v opened room in
        (ok, g, ran, Started-Kept s i cb timeout repeat g st, inl st.timer_cb)
  ]

module _ (s : Loop) (v : IsLoop s) (room : s.timer_heap.nelts + 1 < 2 ^ 32) where
  restart :
      (i cb : ℕ)
      → (s.timers i).timer_cb ≡ some cb
      → ((s.timers i).repeat == 0) ≡ false
      → (a : Loop) → uv_timer_stop i s ≡ some a
      → Stopped s i a
      → (r : Status) × (g : Loop) × (uv_timer_again i s ≡ some (r, g))
        × Kept s 1 (i ∷ []) g
        × (is_some ((s.timers i).timer_cb) ≡ true → is_some ((g.timers i).timer_cb) ≡ true)
  restart i cb e n a stopped st =
      let (r, g, started, kept, called) =
        start-Kept a st.valid (ground (arith, st.size)) i cb (s.timers i).repeat
          (s.timers i).repeat in
      let both = Kept-trans s a g 0 1 (i ∷ []) (i ∷ []) (Stopped-Kept s i a st) kept in
      let k : Kept s 1 (i ∷ []) g =
        Kept-weaken s g (0 + 1) 1 (i ∷ i ∷ []) (i ∷ []) (omega arith) (λ j m. ground arith) both in
      let c : is_some ((s.timers i).timer_cb) ≡ true → is_some ((g.timers i).timer_cb) ≡ true = λ h.
        elim called [ inl new ↦ rw new | inr unchanged ↦ rw (unchanged, (st.same i).timer_cb) h ] in
      (ok, g, again_run s a g i cb r e n stopped started, k, c)

  pub again-Kept :
      (i : ℕ)
      → (r : Status) × (g : Loop) × (uv_timer_again i s ≡ some (r, g))
        × Kept s 1 (i ∷ []) g
        × (is_some ((s.timers i).timer_cb) ≡ true → is_some ((g.timers i).timer_cb) ≡ true)
  again-Kept i = elim (Option-cases ((s.timers i).timer_cb)) [
    | inl e ↦ (einval, s, (uv_timer_again-idle s i).0 e, Kept-refl s 1 (i ∷ []) v, λ h. h)
    | inr (cb, e) ↦ elim (Bool-cases ((s.timers i).repeat == 0)) [
      | inl z ↦ (
        ok,
        s,
        (uv_timer_again-idle s i).1 cb e ((==_iff ((s.timers i).repeat) 0).0 z),
        Kept-refl s 1 (i ∷ []) v,
        λ h. h,
      )
      | inr n ↦ let (a, stopped, st) = uv_timer_stop-Stopped s i v in restart i cb e n a stopped st
    ]
  ]

  set_repeat-Kept : (i repeat : ℕ) → Kept s 1 (i ∷ []) (uv_timer_set_repeat i repeat s)
  unfolding uv_timer_set_repeat
  set_repeat-Kept i repeat = record {
    valid = record {
      heap =
          IsHeap-timers s.timers (uv_timer_set_repeat i repeat s).timers s.timer_heap
            (λ j k. ground arith) v.heap;
      held = λ j. ground (arith, v.held j);
      idle = λ j k. ground (arith, v.idle j k);
      distinct = v.distinct;
      callable = λ j k. ground (arith, v.callable j);
      ready_callable = λ j k. ground (arith, v.ready_callable j k);
    };
    grown = omega arith;
    ready = IsSublist-refl s.ready;
    time = refl;
    quiet = λ h. refl;
  }

  abbrev marked : ℕ → Loop
  marked i = record s {
    timers =
        update s.timers i
          (record (s.timers i) { flags = record ((s.timers i).flags) { closing = true } });
  }

  set_closing_run :
      (i : ℕ) → is_closing ((s.timers i).flags) ≡ false → set_closing i s ≡ some (marked i)
  unfolding set_closing
  set_closing_run i opened = rw opened refl

  marked-Kept : (i : ℕ) → Kept s 0 (i ∷ []) (marked i)
  marked-Kept i = record {
    valid = record {
      heap = IsHeap-timers s.timers (marked i).timers s.timer_heap (λ j k. ground arith) v.heap;
      held = λ j. ground (arith, v.held j);
      idle = λ j k. ground (arith, v.idle j k);
      distinct = v.distinct;
      callable = λ j k. ground (arith, v.callable j);
      ready_callable = λ j k. ground (arith, v.ready_callable j k);
    };
    grown = omega arith;
    ready = IsSublist-refl s.ready;
    time = refl;
    quiet = λ h. refl;
  }

  -- Every call that no assertion forbids succeeds on a valid loop with room for one more timer, and
  -- keeps it valid.
  pub run_call-Kept :
      (c : Call) → MayCall c s → (g : Loop) × (run_call c s ≡ some g) × Kept s 1 (target c ∷ []) g
  unfolding run_call uv__timer_close
  run_call-Kept (start i cb timeout repeat) may =
      let (r, g, ran, kept, _) = start-Kept s v room i cb timeout repeat in (g, rw ran, kept)
  run_call-Kept (stop i) may =
      let (g, ran, st) = uv_timer_stop-Stopped s i v in
      (
        g,
        ran,
        Kept-weaken s g 0 1 (i ∷ []) (i ∷ []) (omega arith) (λ j m. m) (Stopped-Kept s i g st),
      )
  run_call-Kept (again i) may = let (r, g, ran, kept, _) = again-Kept i in (g, rw ran, kept)
  run_call-Kept (set_repeat i repeat) may =
      (uv_timer_set_repeat i repeat s, refl, set_repeat-Kept i repeat)
  run_call-Kept (close i) may =
      let a = marked i in
      let shut = marked-Kept i in
      let (g, ran, st) = uv_timer_stop-Stopped a i shut.valid in
      let both = Kept-trans s a g 0 0 (i ∷ []) (i ∷ []) shut (Stopped-Kept a i g st) in
      (
        g,
        rw (run_call, set_closing_run i may) ran,
        Kept-weaken s g (0 + 0) 1 (i ∷ i ∷ []) (i ∷ []) (omega arith) (λ j m. ground arith) both,
      )

-- All the calls of a callback, one after the other, succeed if there is room for the timers that they
-- start and no call closes a timer that is closing; the loop stays valid.
pub run_calls-Kept :
    (cs : List Call) (s : Loop)
    → IsLoop s
    → MayCalls cs s
    → s.timer_heap.nelts + length cs < 2 ^ 32
    → (g : Loop) × (run_calls cs s ≡ some g) × Kept s (length cs) (targets cs) g
unfolding run_calls
run_calls-Kept [] s v may room = (s, refl, Kept-refl s 0 [] v)
run_calls-Kept (c ∷ cs) s v may room =
    let (a, ran, kept) = run_call-Kept s v (omega arith) c may.0 in
    let (g, rest, kept') =
      run_calls-Kept cs a kept.valid (may.1 a ran) (omega (arith, kept.grown)) in
    let both = Kept-trans s a g 1 (length cs) (target c ∷ []) (targets cs) kept kept' in
    (
      g,
      rw (run_calls, ran) rest,
      Kept-weaken s g (1 + length cs) (suc (length cs)) (target c ∷ targets cs)
          (target c ∷ targets cs) (omega arith) (λ j m. m) both,
    )
