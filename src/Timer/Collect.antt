-- ===== src/Timer/Collect.antt =====
-- timer.c: the first loop of uv__run_timers.
use sebbu_c_libuv.Base.{
  ℕ, zero, suc, ◌+◌, ◌<◌, ◌≤◌, ◌≡◌, ◌⊎◌, refl, ◌∙◌, true, false, some, List, [], ◌∷◌, ◌++◌, arith,
  ltb, ◌==◌, ==_iff, if◌then◌else◌, Bool-cases, Option-cases, inl, inr, length, length-append,
}
use sebbu_c_libuv.Heap.{heap_min}
use sebbu_c_libuv.Heap.Min.{heap_min-IsLeast, heap_min-none}
use sebbu_c_libuv.Queue.Ring.{has, ◌∈◌, has-append, IsDistinct-append}
use sebbu_c_libuv.Timer.{Timer, Loop, timer_less_than, collect}
use sebbu_c_libuv.Timer.Invariant.{IsLoop, timer_less_than-IsLessThan}
use sebbu_c_libuv.Timer.Stop.{
  SameTimer, SameTimer-refl, SameTimer-trans, Stopped, uv_timer_stop-Stopped,
}

-- No timer of the list should have been called before one in front of it.
abbrev pub IsInOrder : (ℕ → Timer) → List ℕ → Type 0
IsInOrder timers [] = Unit
IsInOrder timers (x ∷ xs) =
    ((b : ℕ) → b ∈ xs → timer_less_than timers b x ≡ false) × IsInOrder timers xs

-- The timer is active and its due time has come.
abbrev pub IsDue : Loop → ℕ → Type 0
IsDue s i = ((s.timers i).flags.active ≡ true) × ((s.timers i).timeout ≤ s.time)

-- The timers that wait in `s` go before all that are still active.
abbrev pub IsBehind : Loop → Type 0
IsBehind s =
    (a b : ℕ)
    → a ∈ s.ready
    → (s.timers b).flags.active ≡ true
    → timer_less_than s.timers b a ≡ false

pub record Collected (s g : Loop) : Type 0 where
  pub valid : IsLoop g
  pub later : (i : ℕ) → (g.timers i).flags.active ≡ true → g.time < (g.timers i).timeout
  pub same : (j : ℕ) → SameTimer (s.timers j) (g.timers j)
  pub time : g.time ≡ s.time
  pub from : (i : ℕ) → i ∈ g.ready → (i ∈ s.ready) ⊎ IsDue s i
  pub waiting : (i : ℕ) → i ∈ s.ready → i ∈ g.ready
  pub due : (i : ℕ) → IsDue s i → i ∈ g.ready
  pub ordered : IsInOrder g.timers g.ready
  pub size : g.timer_heap.nelts + length g.ready ≡ s.timer_heap.nelts + length s.ready

pub IsInOrder-same :
    (timers timers' : ℕ → Timer) (xs : List ℕ)
    → ((j : ℕ) → SameTimer (timers j) (timers' j))
    → IsInOrder timers xs
    → IsInOrder timers' xs
unfolding timer_less_than
IsInOrder-same timers timers' [] same o = tt
IsInOrder-same timers timers' (x ∷ xs) same o = (
  λ b i. rw ((same b).timeout, (same x).timeout, (same b).start_id, (same x).start_id) (o.0 b i),
  IsInOrder-same timers timers' xs same o.1,
)

IsInOrder-append :
    (timers : ℕ → Timer) (xs : List ℕ) (i : ℕ)
    → IsInOrder timers xs
    → ((a : ℕ) → a ∈ xs → timer_less_than timers i a ≡ false)
    → IsInOrder timers (xs ++ i ∷ [])
IsInOrder-append timers [] i o h = (λ b k. cc, tt)
IsInOrder-append timers (x ∷ xs) i o h = (
  λ b k. ground (arith, has-append b xs (i ∷ []), o.0 b, h x),
  IsInOrder-append timers xs i o.1 (λ a k. h a (ground arith)),
)

-- The state after the least timer was moved.
record Moved (s : Loop) (i : ℕ) (g : Loop) : Type 0 where
  valid : IsLoop g
  same : (j : ℕ) → SameTimer (s.timers j) (g.timers j)
  active :
      (j : ℕ) → (g.timers j).flags.active ≡ (if j == i then false else (s.timers j).flags.active)
  time : g.time ≡ s.time
  ready : g.ready ≡ s.ready ++ i ∷ []
  size : g.timer_heap.nelts + 1 ≡ s.timer_heap.nelts

module _ (s : Loop) (i : ℕ) (v : IsLoop s) (on : (s.timers i).flags.active ≡ true) where
  move-Moved : (a : Loop) → Stopped s i a → Moved s i (record a { ready = a.ready ++ i ∷ [] })
  move-Moved a st =
      let e : a.ready ≡ s.ready = ground (arith, st.ready) in
      record {
        valid = record {
          heap = st.valid.heap;
          held = st.valid.held;
          idle = λ j k. ground (arith, has-append j a.ready (i ∷ []), st.inactive, st.valid.idle j);
          distinct =
              IsDistinct-append a.ready (i ∷ []) st.valid.distinct (refl, tt)
                (λ j k. ground (arith, st.out));
          callable = st.valid.callable;
          ready_callable = λ j k. ground (
            arith,
            has-append j a.ready (i ∷ []),
            st.valid.ready_callable j,
            (st.same i).timer_cb,
            v.callable i,
          );
        };
        same = st.same;
        active = λ j. ground (arith, st.inactive, st.others j);
        time = st.time;
        ready = rw e;
        size = ground (arith, st.size);
      }

less-same :
    (timers timers' : ℕ → Timer) (a b : ℕ)
    → ((j : ℕ) → SameTimer (timers j) (timers' j))
    → timer_less_than timers' a b ≡ timer_less_than timers a b
unfolding timer_less_than
less-same timers timers' a b same =
    rw ((same a).timeout, (same b).timeout, (same a).start_id, (same b).start_id)

-- A timer that is not less than a due one in the future is in the future.
pub less-later :
    (timers : ℕ → Timer) (time i j : ℕ)
    → timer_less_than timers j i ≡ false
    → time < (timers i).timeout
    → time < (timers j).timeout
unfolding timer_less_than
less-later timers time i j h k = ground arith

-- The least timer is active, and no active timer is less.
pub min-active :
    (s : Loop) (i : ℕ)
    → IsLoop s
    → heap_min s.timer_heap ≡ some i
    → ((s.timers i).flags.active ≡ true)
      × ((j : ℕ) → (s.timers j).flags.active ≡ true → timer_less_than s.timers j i ≡ false)
min-active s i v e =
    let (inside, least) =
      heap_min-IsLeast (timer_less_than-IsLessThan s.timers) ==_iff s.timer_heap i v.heap e in
    (ground (arith, v.held i), λ j on. least j (ground (arith, v.held j)))

module _ (s a : Loop) (i : ℕ) (m : Moved s i a) (on : (s.timers i).flags.active ≡ true)
    (come : (s.timers i).timeout ≤ s.time) where
  moved-Collected : (g : Loop) → Collected a g → Collected s g
  moved-Collected g c = record {
    valid = c.valid;
    later = c.later;
    same = λ j. SameTimer-trans (m.same j) (c.same j);
    time = c.time ∙ m.time;
    from = λ j k. elim (c.from j k) [
      | inl old ↦ moved_from j old
      | inr (act, due) ↦ inr (ground (arith, m.active j), rw (← m.time, ← (m.same j).timeout) due)
    ];
    waiting = λ j k. c.waiting j (ground (arith, m.ready, has-append j s.ready (i ∷ [])));
    due = λ j d. elim (Bool-cases (j == i)) [
      | inl e ↦ c.waiting j (ground (arith, m.ready, has-append j s.ready (i ∷ [])))
      | inr e ↦ c.due j (ground (arith, m.active j), rw (m.time, (m.same j).timeout) d.1)
    ];
    ordered = c.ordered;
    size = ground (arith, c.size, m.size, m.ready, length-append s.ready (i ∷ []));
  }
    where
      moved_from : (j : ℕ) → j ∈ a.ready → (j ∈ s.ready) ⊎ IsDue s j
      moved_from j k = elim (Bool-cases (has j s.ready)) [
        | inl old ↦ inl old
        | inr new ↦
            let e : j ≡ i = ground (arith, m.ready, has-append j s.ready (i ∷ [])) in
            inr (rw e on, rw e come)
      ]

  moved-IsBehind :
      IsBehind s
      → ((j : ℕ) → (s.timers j).flags.active ≡ true → timer_less_than s.timers j i ≡ false)
      → IsBehind a
  moved-IsBehind behind least x b k act =
      let was : (s.timers b).flags.active ≡ true = ground (arith, m.active b) in
      rw (less-same s.timers a.timers b x m.same) (elim (Bool-cases (has x s.ready)) [
        | inl old ↦ behind x b old was
        | inr new ↦
            let e : x ≡ i = ground (arith, m.ready, has-append x s.ready (i ∷ [])) in
            rw e (least b was)
      ])

  moved-IsInOrder : IsBehind s → IsInOrder s.timers s.ready → IsInOrder a.timers a.ready
  moved-IsInOrder behind o = rw (m.ready) (
      IsInOrder-same s.timers a.timers (s.ready ++ i ∷ []) m.same
        (IsInOrder-append s.timers s.ready i o (λ x k. behind x i k on)))

stay-Collected :
    (s : Loop)
    → IsLoop s
    → IsInOrder s.timers s.ready
    → ((j : ℕ) → (s.timers j).flags.active ≡ true → s.time < (s.timers j).timeout)
    → Collected s s
stay-Collected s v o later = record {
  valid = v;
  later = later;
  same = λ j. SameTimer-refl (s.timers j);
  time = refl;
  from = λ j k. inl k;
  waiting = λ j k. k;
  due = λ j d. absurd (omega (arith, later j d.0, d.1));
  ordered = o;
  size = refl;
}

-- The first loop of `uv__run_timers` ends within one round for each timer in the heap, and moves
-- the due timers, and no others, to the ready queue in the order of their due times and starts.
pub collect-Collected :
    (fuel : ℕ) (s : Loop)
    → IsLoop s
    → s.timer_heap.nelts < fuel
    → IsInOrder s.timers s.ready
    → IsBehind s
    → (g : Loop) × (collect fuel s ≡ some g) × Collected s g
unfolding collect
collect-Collected zero s v enough o behind = absurd (omega arith)
collect-Collected (suc fuel) s v enough o behind = elim (Option-cases (heap_min s.timer_heap)) [
  | inl e ↦ (
    s,
    rw (collect, e),
    stay-Collected s v o
        (λ j on. absurd (ground (arith, v.held j, heap_min-none (◌==◌ j) s.timer_heap e))),
  )
  | inr (i, e) ↦
      let (on, least) = min-active s i v e in
      elim (Bool-cases (ltb s.time (s.timers i).timeout)) [
        | inl future ↦ (
          s,
          rw (collect, e, future),
          stay-Collected s v o
              (λ j act. less-later s.timers s.time i j (least j act) (ground arith)),
        )
        | inr now ↦
            let (a, ran, st) = uv_timer_stop-Stopped s i v in
            let b : Loop = record a { ready = a.ready ++ i ∷ [] } in
            let m : Moved s i b = move-Moved s i v on a st in
            let (g, rest, c) =
              collect-Collected fuel b m.valid (omega (arith, m.size))
                (moved-IsInOrder s b i m on (ground arith) behind o)
                (moved-IsBehind s b i m on (ground arith) behind least) in
            (g, rw (collect, e, now, ran) rest, moved-Collected s b i m on (ground arith) g c)
      ]
]
