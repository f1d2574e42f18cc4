-- ===== src/Pool/Take.antt =====
-- threadpool.c: what a worker takes from the queues.
use sebbu_c_libuv.Base.{
  ℕ, suc, ◌+◌, ◌≤◌, ◌<◌, ◌≡◌, ◌≢◌, ◌⊎◌, inl, inr, refl, ap, ◌∙◌, true, false, some, List, [], ◌∷◌,
  ◌++◌, length, ◌==◌, if◌then◌else◌, arith, Bool-cases, List-cases,
}
use sebbu_c_libuv.Pool.{
  Node, request, run_slow_work_message, exit_message, Pool, slow_work_thread_threshold, messages,
  Taken, wait, exit, work, at_threshold, take_slow, take_work, queued, pending,
}

pub messages-append : (q r : List Node) → messages (q ++ r) ≡ messages q + messages r
messages-append [] r = omega arith
messages-append (request j ∷ q) r = messages-append q r
messages-append (run_slow_work_message ∷ q) r = omega (arith, messages-append q r)
messages-append (exit_message ∷ q) r = messages-append q r

pub queued-append : (j : ℕ) (q r : List Node) → queued j (q ++ r) ≡ queued j q + queued j r
queued-append j [] r = omega arith
queued-append j (request i ∷ q) r = omega (arith, queued-append j q r)
queued-append j (run_slow_work_message ∷ q) r = queued-append j q r
queued-append j (exit_message ∷ q) r = queued-append j q r

-- The message is linked at most once, and it is linked while slow requests wait; no more slow
-- requests run than the threshold allows.
pub record IsPool (p : Pool) : Type 0 where
  pub once : messages p.wq ≤ 1
  pub posted : 0 < length p.slow_io_pending_wq → messages p.wq ≡ 1
  pub bounded : p.slow_io_work_running ≤ slow_work_thread_threshold p

abbrev pub slow_count : Taken → ℕ
slow_count (work true j) = 1
slow_count _ = 0

-- How often a worker runs the request `j` after taking.
abbrev pub runs : ℕ → Taken → ℕ
runs j (work slow i) = if i == j then 1 else 0
runs j _ = 0

-- The outcome of `take_work`.
pub record Took (p : Pool) (t : Taken) (g : Pool) : Type 0 where
  pub valid : IsPool g
  pub nthreads : g.nthreads ≡ p.nthreads
  pub slow : g.slow_io_work_running ≡ p.slow_io_work_running + slow_count t
  pub kept :
      (j : ℕ)
      → queued j g.wq + pending j g.slow_io_pending_wq + runs j t
        ≡ queued j p.wq + pending j p.slow_io_pending_wq
  pub waits :
      t ≡ wait
      → (g.wq ≡ [])
        ⊎ ((g.wq ≡ run_slow_work_message ∷ [])
            × (g.slow_io_work_running ≡ slow_work_thread_threshold g))

-- The first node of `wq`.
data Front (q : List Node) : Type 0 where
  none_left : q ≡ [] → Front q
  a_request : (j : ℕ) (r : List Node) → q ≡ request j ∷ r → Front q
  the_exit : (r : List Node) → q ≡ exit_message ∷ r → Front q
  the_message : (r : List Node) → q ≡ run_slow_work_message ∷ r → Front q

front : (q : List Node) → Front q
front [] = none_left refl
front (request j ∷ r) = a_request j r refl
front (exit_message ∷ r) = the_exit r refl
front (run_slow_work_message ∷ r) = the_message r refl

stay-Took :
    (p : Pool) (t : Taken)
    → IsPool p
    → slow_count t ≡ 0
    → ((j : ℕ) → runs j t ≡ 0)
    → (t ≡ wait → p.wq ≡ [])
    → Took p t p
stay-Took p t v s r w = record {
  valid = v;
  nthreads = refl;
  slow = omega (arith, s);
  kept = λ j. omega (arith, r j);
  waits = λ e. inl (w e);
}

request-Took :
    (p : Pool) (j : ℕ) (r : List Node)
    → IsPool p
    → p.wq ≡ request j ∷ r
    → Took p (work false j) (record p { wq = r })
unfolding slow_work_thread_threshold
request-Took p j r v e = record {
  valid = record { once = rw e at v.once; posted = λ k. rw e at (v.posted k); bounded = v.bounded };
  nthreads = refl;
  slow = omega arith;
  kept = λ i. rw e (omega arith);
  waits = λ k. cc;
}

-- With anything but the message in front, one round is enough.
module _ (fuel : ℕ) (p : Pool) (v : IsPool p) where
  other_front :
      ((r : List Node) → p.wq ≢ run_slow_work_message ∷ r)
      → (t : Taken) × (g : Pool) × (take_work (suc fuel) p ≡ some (t, g)) × Took p t g
  unfolding take_work
  other_front no_message = elim (front p.wq) [
    | none_left e ↦ (wait, p, simp (take_work, e), stay-Took p wait v refl (λ j. refl) (λ k. e))
    | a_request j r e ↦
        (work false j, record p { wq = r }, simp (take_work, e), request-Took p j r v e)
    | the_exit r e ↦ (exit, p, simp (take_work, e), stay-Took p exit v refl (λ j. refl) (λ k. cc))
    | the_message r e ↦ absurd (no_message r e)
  ]

module _ (fuel : ℕ) (p : Pool) (r : List Node) (e : p.wq ≡ run_slow_work_message ∷ r) where
  wait_run : at_threshold p ≡ true → r ≡ [] → take_work (suc fuel) p ≡ some (wait, p)
  unfolding take_work
  wait_run full none_else = simp (take_work, e, full, none_else)

  later_run :
      at_threshold p ≡ true
      → (length r == 0) ≡ false
      → take_work (suc fuel) p ≡ take_work fuel (record p { wq = r ++ run_slow_work_message ∷ [] })
  unfolding take_work
  later_run full more = simp (take_work, e, full, more)

  again_run :
      at_threshold p ≡ false
      → p.slow_io_pending_wq ≡ []
      → take_work (suc fuel) p ≡ take_work fuel (record p { wq = r })
  unfolding take_work
  again_run free none_pending = simp (take_work, e, free, none_pending)

  slow_run :
      (j : ℕ) (js : List ℕ)
      → at_threshold p ≡ false
      → p.slow_io_pending_wq ≡ j ∷ js
      → take_work (suc fuel) p ≡ some (work true j, take_slow (record p { wq = r }) j js)
  unfolding take_work
  slow_run j js free some_pending = simp (take_work, e, free, some_pending)

slow-Took :
    (p : Pool) (j : ℕ) (js : List ℕ) (r : List Node)
    → IsPool p
    → p.wq ≡ run_slow_work_message ∷ r
    → at_threshold p ≡ false
    → p.slow_io_pending_wq ≡ j ∷ js
    → Took p (work true j) (take_slow (record p { wq = r }) j js)
unfolding take_slow slow_work_thread_threshold
slow-Took p j js r v e free some_pending = record {
  valid = record {
    once = ground (arith, v.once, e, messages-append r (run_slow_work_message ∷ []));
    posted = λ k. ground (arith, v.once, e, messages-append r (run_slow_work_message ∷ []));
    bounded = ground arith;
  };
  nthreads = refl;
  slow = refl;
  kept = λ i. ground (arith, e, some_pending, queued-append i r (run_slow_work_message ∷ []));
  waits = λ k. cc;
}

-- A round that leaves the requests where they are.
after-Took :
    (p : Pool) (q : List Node) (t : Taken) (g : Pool)
    → ((j : ℕ) → queued j q ≡ queued j p.wq)
    → Took (record p { wq = q }) t g
    → Took p t g
after-Took p q t g same o = record {
  valid = o.valid;
  nthreads = o.nthreads;
  slow = o.slow;
  kept = λ j. o.kept j ∙ ap (λ n. n + pending j p.slow_io_pending_wq) (same j);
  waits = o.waits;
}

no_message_front :
    (r s : List Node)
    → messages r ≡ 0
    → (length r == 0) ≡ false
    → (q : List Node) → r ++ s ≢ run_slow_work_message ∷ q
no_message_front [] s n more q e = cc
no_message_front (run_slow_work_message ∷ r) s n more q e = absurd (omega arith)
no_message_front (request j ∷ r) s n more q e = cc
no_message_front (exit_message ∷ r) s n more q e = cc

module _ (fuel : ℕ) (p : Pool) (v : IsPool p) (r : List Node)
    (e : p.wq ≡ run_slow_work_message ∷ r) where
  none_other : messages r ≡ 0
  none_other = ground (arith, v.once, e)

  rotate-Took :
      at_threshold p ≡ true
      → (length r == 0) ≡ false
      → (t : Taken) × (g : Pool) × (take_work (suc (suc fuel)) p ≡ some (t, g)) × Took p t g
  unfolding slow_work_thread_threshold
  rotate-Took full more =
      let q : List Node = r ++ run_slow_work_message ∷ [] in
      let v' : IsPool (record p { wq = q }) = record {
        once = ground (arith, none_other, messages-append r (run_slow_work_message ∷ []));
        posted = λ k. ground (arith, none_other, messages-append r (run_slow_work_message ∷ []));
        bounded = v.bounded;
      } in
      let (t, g, ran, o) =
        other_front fuel (record p { wq = q }) v'
          (no_message_front r (run_slow_work_message ∷ []) none_other more) in
      (
        t,
        g,
        later_run (suc fuel) p r e full more ∙ ran,
        after-Took p q t g (λ j. ground (arith, e, queued-append j r (run_slow_work_message ∷ [])))
            o,
      )

  drop-Took :
      at_threshold p ≡ false
      → p.slow_io_pending_wq ≡ []
      → (t : Taken) × (g : Pool) × (take_work (suc (suc fuel)) p ≡ some (t, g)) × Took p t g
  unfolding slow_work_thread_threshold
  drop-Took free none_pending =
      let v' : IsPool (record p { wq = r }) = record {
        once = omega (arith, none_other);
        posted = λ k. ground (arith, none_pending);
        bounded = v.bounded;
      } in
      let (t, g, ran, o) =
        other_front fuel (record p { wq = r }) v' (λ q k. ground (arith, none_other, k)) in
      (
        t,
        g,
        again_run (suc fuel) p r e free none_pending ∙ ran,
        after-Took p r t g (λ j. ground (arith, e)) o,
      )

  wait-Took : at_threshold p ≡ true → r ≡ [] → Took p wait p
  wait-Took full none_else = record {
    valid = v;
    nthreads = refl;
    slow = omega arith;
    kept = λ j. omega arith;
    waits = λ k. inr (e ∙ rw none_else, ground (arith, v.bounded));
  }

-- A worker that locks the mutex goes through the loop at most twice before it waits, exits or has a
-- request. It loses no request and keeps the queues valid, no more slow requests run than half of the
-- threads, rounded up, and it waits only if there is no request, or nothing but slow ones while that
-- many slow ones run.
pub take_work-Took :
    (fuel : ℕ) (p : Pool)
    → IsPool p
    → (t : Taken) × (g : Pool) × (take_work (suc (suc fuel)) p ≡ some (t, g)) × Took p t g
take_work-Took fuel p v = elim (front p.wq) [
  | none_left e ↦ other_front (suc fuel) p v (λ r k. ground (arith, e, k))
  | a_request j r e ↦ other_front (suc fuel) p v (λ q k. ground (arith, e, k))
  | the_exit r e ↦ other_front (suc fuel) p v (λ q k. ground (arith, e, k))
  | the_message r e ↦ elim (Bool-cases (at_threshold p)) [
    | inl full ↦ elim (Bool-cases (length r == 0)) [
      | inl none_else ↦
          let empty : r ≡ [] = ground arith in
          (wait, p, wait_run (suc fuel) p r e full empty, wait-Took fuel p v r e full empty)
      | inr more ↦ rotate-Took fuel p v r e full more
    ]
    | inr free ↦ elim (List-cases p.slow_io_pending_wq) [
      | inl none_pending ↦ drop-Took fuel p v r e free none_pending
      | inr (j, js, some_pending) ↦ (
        work true j,
        take_slow (record p { wq = r }) j js,
        slow_run (suc fuel) p r e j js free some_pending,
        slow-Took p j js r v e free some_pending,
      )
    ]
  ]
]
