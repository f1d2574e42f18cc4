-- ===== src/Timer/Run.antt =====
-- timer.c: uv__run_timers, and what uv__next_timeout promises the poll.
use mathlib.Core.Path.{subst}
use sebbu_c_libuv.Base.{
  ℕ, zero, suc, ◌+◌, ◌*◌, ◌^◌, ◌<◌, ◌≤◌, ◌≡◌, ◌↔◌, refl, sym, ap, ◌∙◌, true, Option, none, some,
  List, [], ◌∷◌, arith, ◌==◌, ==_iff, Bool-cases, inl, inr, length, List-cases,
}
use sebbu_c_libuv.Base.Sublist.{IsSublist, nil, keep, IsSublist-trans, IsSublist-length}
use sebbu_c_libuv.Queue.Ring.{◌∈◌, ◌∉◌, IsDistinct}
use sebbu_c_libuv.Timer.{
  Loop, Call, Status, run_calls, uv_timer_again, collect, fire, uv__run_timers,
}
use sebbu_c_libuv.Timer.Invariant.{is_some, IsLoop}
use sebbu_c_libuv.Timer.Calls.{
  Kept, Kept-trans, Kept-weaken, IsAloof, targets, MayCalls, again-Kept, run_calls-Kept,
}
use sebbu_c_libuv.Timer.Stop.{SameTimer-sym}
use sebbu_c_libuv.Timer.Collect.{IsInOrder, IsDue, collect-Collected, IsInOrder-same}

abbrev pub Script : Type 0
Script = ℕ → ℕ → Loop → List Call

-- Taking the first timer off the ready queue.
rest-IsLoop :
    (s : Loop) (i : ℕ) (rest : List ℕ)
    → IsLoop s
    → s.ready ≡ i ∷ rest
    → IsLoop (record s { ready = rest })
rest-IsLoop s i rest v e = record {
  heap = v.heap;
  held = v.held;
  idle = λ j k. v.idle j (ground arith);
  distinct = let d : IsDistinct (i ∷ rest) = rw e at v.distinct in d.1;
  callable = v.callable;
  ready_callable = λ j k. v.ready_callable j (ground arith);
}

head-out : (s : Loop) (i : ℕ) (rest : List ℕ) → IsLoop s → s.ready ≡ i ∷ rest → i ∉ rest
head-out s i rest v e = let d : IsDistinct (i ∷ rest) = rw e at v.distinct in d.0

-- One round of the second loop, for the timer `i`.
record Called (script : Script) (most i : ℕ) (s : Loop) : Type 0 where
  result : Status
  again_state : Loop
  cb : ℕ
  after : Loop
  restarted : uv_timer_again i s ≡ some (result, again_state)
  callback : (again_state.timers i).timer_cb ≡ some cb
  returned : run_calls (script cb i again_state) again_state ≡ some after
  kept : Kept s (most + 1) (i ∷ targets (script cb i again_state)) after
  waiting : again_state.ready ≡ s.ready

-- Something holds of the calls of each callback that the second loop calls, in the state that the
-- callback is called in.
abbrev pub Along : (List Call → Loop → Type 0) → Script → ℕ → Loop → Type 0
Along P script zero s = Unit
Along P script (suc fuel) s =
    (i : ℕ) (rest : List ℕ) (r : Status) (a : Loop) (cb : ℕ)
    → s.ready ≡ i ∷ rest
    → uv_timer_again i (record s { ready = rest }) ≡ some (r, a)
    → (a.timers i).timer_cb ≡ some cb
    → P (script cb i a) a
      × ((g : Loop) → run_calls (script cb i a) a ≡ some g → Along P script fuel g)

pub Along-always :
    (P : List Call → Loop → Type 0) (script : Script) (fuel : ℕ) (s : Loop)
    → ((cb i : ℕ) (a : Loop) → P (script cb i a) a)
    → Along P script fuel s
Along-always P script zero s h = tt
Along-always P script (suc fuel) s h =
    λ i rest r a cb e x y. (h cb i a, λ g ran. Along-always P script fuel g h)

-- The second loop of the run on `s`.
abbrev pub AlongRun : (List Call → Loop → Type 0) → Script → Loop → Type 0
AlongRun P script s =
    (a : Loop)
    → collect (s.timer_heap.nelts + 1) (record s { ready = [] }) ≡ some a
    → Along P script (length a.ready + 1) a

-- No callback calls anything about a timer that waits to be called.
abbrev pub LeavesAlone : List Call → Loop → Type 0
LeavesAlone cs s = IsAloof (targets cs) s

-- The second loop calls timers of the ready queue only, each at most once and in its order, and
-- ends with the queue empty and the loop valid; it calls all of them if callbacks leave waiting
-- timers alone.
record Fired (script : Script) (fuel : ℕ) (s : Loop) : Type 0 where
  after : Loop
  called : List ℕ
  ran : fire script fuel s ≡ some (after, called)
  valid : IsLoop after
  empty : after.ready ≡ []
  time : after.time ≡ s.time
  sublist : IsSublist called s.ready
  all : Along LeavesAlone script fuel s → called ≡ s.ready

fire_done :
    (script : Script) (fuel : ℕ) (s : Loop) → s.ready ≡ [] → fire script (suc fuel) s ≡ some (s, [])
unfolding fire
fire_done script fuel s e = simp (fire, e)

fire_more :
    (script : Script) (most fuel : ℕ) (s : Loop) (i : ℕ) (rest called : List ℕ) (g : Loop)
    → s.ready ≡ i ∷ rest
    → (c : Called script most i (record s { ready = rest }))
    → fire script fuel c.after ≡ some (g, called)
    → fire script (suc fuel) s ≡ some (g, i ∷ called)
unfolding fire
fire_more script most fuel s i rest called g e c ran =
    rw (fire, e, c.restarted, c.callback, c.returned, ran)

some_of_is_some : {A : Type 0} (o : Option A) → is_some o ≡ true → (a : A) × (o ≡ some a)
some_of_is_some none h = cc
some_of_is_some (some a) h = (a, refl)

round-IsAloof :
    (script : Script) (most : ℕ) (s : Loop) (i : ℕ) (rest : List ℕ)
    → IsLoop s
    → s.ready ≡ i ∷ rest
    → (c : Called script most i (record s { ready = rest }))
    → LeavesAlone (script c.cb i c.again_state) c.again_state
    → IsAloof (i ∷ targets (script c.cb i c.again_state)) (record s { ready = rest })
round-IsAloof script most s i rest v e c h j m = elim (Bool-cases (j == i)) [
  | inl same ↦ let is : j ≡ i = (==_iff j i).0 same in rw is (head-out s i rest v e)
  | inr other ↦ rw (← c.waiting) (h j (ground arith))
]

module _ (script : Script) (most : ℕ)
    (bounded : (cb i : ℕ) (s : Loop) → length (script cb i s) ≤ most) where
  call_round :
      (s : Loop) (i : ℕ)
      → IsLoop s
      → is_some ((s.timers i).timer_cb) ≡ true
      → i ∉ s.ready
      → s.timer_heap.nelts + (most + 1) < 2 ^ 32
      → ((r : Status) (a : Loop) (cb : ℕ)
          → uv_timer_again i s ≡ some (r, a)
          → (a.timers i).timer_cb ≡ some cb
          → MayCalls (script cb i a) a)
      → Called script most i s
  call_round s i v callable out room may =
      let (r, a, again_ran, kept, keeps) = again-Kept s v (omega arith) i in
      let (cb, e) = some_of_is_some ((a.timers i).timer_cb) (keeps callable) in
      let cs = script cb i a in
      let few = bounded cb i a in
      let (g, calls_ran, kept') =
        run_calls-Kept cs a kept.valid (may r a cb again_ran e) (omega (arith, kept.grown, few)) in
      record {
        result = r;
        again_state = a;
        cb = cb;
        after = g;
        restarted = again_ran;
        callback = e;
        returned = calls_ran;
        kept =
            Kept-weaken s g (1 + length cs) (most + 1) (i ∷ targets cs) (i ∷ targets cs)
              (omega arith) (λ j m. m)
              (Kept-trans s a g 1 (length cs) (i ∷ []) (targets cs) kept kept');
        waiting = kept.quiet (λ j m. ground arith);
      }

  fire-Fired :
      (fuel : ℕ) (s : Loop)
      → IsLoop s
      → length s.ready < fuel
      → s.timer_heap.nelts + fuel * (most + 1) < 2 ^ 32
      → Along MayCalls script fuel s
      → Fired script fuel s
  fire-Fired zero s v enough room may = absurd (omega arith)
  fire-Fired (suc fuel) s v enough room may = elim (List-cases s.ready) [
    | inl e ↦ record {
      after = s;
      called = [];
      ran = fire_done script fuel s e;
      valid = v;
      empty = e;
      time = refl;
      sublist = subst (λ r. IsSublist [] r) (sym e) nil;
      all = λ h. sym e;
    }
    | inr (i, rest, e) ↦
        let c =
          call_round (record s { ready = rest }) i (rest-IsLoop s i rest v e)
            (v.ready_callable i (ground arith)) (head-out s i rest v e) (omega arith)
            (λ r a cb x y. (may i rest r a cb e x y).0) in
        let f =
          fire-Fired fuel c.after c.kept.valid (ground (arith, IsSublist-length c.kept.ready))
            (omega (arith, c.kept.grown))
            ((may i rest c.result c.again_state c.cb e c.restarted c.callback).1 c.after
              c.returned) in
        record {
          after = f.after;
          called = i ∷ f.called;
          ran = fire_more script most fuel s i rest f.called f.after e c f.ran;
          valid = f.valid;
          empty = f.empty;
          time = f.time ∙ c.kept.time;
          sublist =
              subst (λ r. IsSublist (i ∷ f.called) r) (sym e)
                (keep (IsSublist-trans c.kept.ready f.sublist));
          all = λ h.
              let (alone, later) = h i rest c.result c.again_state c.cb e c.restarted c.callback in
              let left : c.after.ready ≡ rest =
                c.kept.quiet (λ j m. round-IsAloof script most s i rest v e c alone j m) in
              ap (◌∷◌ i) (f.all (later c.after c.returned) ∙ left) ∙ sym e;
        }
  ]

clear-IsLoop : (s : Loop) → IsLoop s → IsLoop (record s { ready = [] })
clear-IsLoop s v = record {
  heap = v.heap;
  held = v.held;
  idle = λ j k. cc;
  distinct = tt;
  callable = v.callable;
  ready_callable = λ j k. cc;
}

-- The outcome of `uv__run_timers` on `s`: `due` are the timers that were due, in the order of their
-- due times and starts, and `called` those whose callbacks were called.
pub record Ran (script : Script) (s g : Loop) (due called : List ℕ) : Type 0 where
  pub ran : uv__run_timers script s ≡ some (g, called)
  pub valid : IsLoop g
  pub empty : g.ready ≡ []
  pub time : g.time ≡ s.time
  pub exact : (i : ℕ) → (i ∈ due) ↔ IsDue s i
  pub distinct : IsDistinct due
  pub ordered : IsInOrder s.timers due
  pub sublist : IsSublist called due
  pub all : AlongRun LeavesAlone script s → called ≡ due

run_timers_run :
    (script : Script) (s a g : Loop) (called : List ℕ)
    → collect (s.timer_heap.nelts + 1) (record s { ready = [] }) ≡ some a
    → fire script (length a.ready + 1) a ≡ some (g, called)
    → uv__run_timers script s ≡ some (g, called)
unfolding uv__run_timers
run_timers_run script s a g called first second = rw (uv__run_timers, first, second)

enough_room :
    (n k most bound : ℕ)
    → n + k + (n + k + 1) * (most + 1) < bound
    → n + (k + 1) * (most + 1) < bound
enough_room n k most bound room = omega arith

-- `uv__run_timers` returns if there is room for the timers that the callbacks start and no callback
-- closes a timer that is closing already, which an assertion forbids. Of the timers that are due at
-- the start it calls each at most once and no other timer, ordered by due time and then by start, and
-- it calls all of them if no callback that it calls touches a timer that waits for its call then. A
-- timer that a callback starts is not called in this run.
pub uv__run_timers-Ran :
    (script : Script) (most : ℕ) (s : Loop)
    → ((cb i : ℕ) (a : Loop) → length (script cb i a) ≤ most)
    → IsLoop s
    → s.timer_heap.nelts + (s.timer_heap.nelts + 1) * (most + 1) < 2 ^ 32
    → AlongRun MayCalls script s
    → (g : Loop) × (due : List ℕ) × (called : List ℕ) × Ran script s g due called
uv__run_timers-Ran script most s bounded v room may =
    let (a, first, c) =
      collect-Collected (s.timer_heap.nelts + 1) (record s { ready = [] }) (clear-IsLoop s v)
        (omega arith) tt (λ x b k act. cc) in
    let all_left : a.timer_heap.nelts + length a.ready ≡ s.timer_heap.nelts =
      omega (arith, c.size) in
    let f =
      fire-Fired script most bounded (length a.ready + 1) a c.valid (omega arith)
        (enough_room a.timer_heap.nelts (length a.ready) most (2 ^ 32) (rw all_left room))
        (may a first) in
    (
      f.after,
      a.ready,
      f.called,
      record {
        ran = run_timers_run script s a f.after f.called first f.ran;
        valid = f.valid;
        empty = f.empty;
        time = f.time ∙ c.time;
        exact = λ i. (λ k. elim (c.from i k) [ inl old ↦ cc | inr due ↦ due ], c.due i);
        distinct = c.valid.distinct;
        ordered =
            IsInOrder-same a.timers s.timers a.ready (λ j. SameTimer-sym (c.same j)) c.ordered;
        sublist = f.sublist;
        all = λ h. f.all (h a first);
      },
    )
