-- ===== src/Pool/Invariant.antt =====
-- threadpool.c: what holds after any interleaving.
use mathlib.Core.Path.{subst}
use sebbu_c_libuv.Base.{
  ℕ, ◌+◌, ◌<◌, ◌≡◌, inl, inr, refl, sym, ap, ◌∙◌, true, false, Option, none, some, List, [], ◌∷◌,
  ltb, ◌==◌, if◌then◌else◌, arith, Bool-cases,
}
use sebbu_c_libuv.Timer.{unlink}
use sebbu_c_libuv.Pool.{
  exit_message, Pool, slow_work_thread_threshold, post_exit, Taken, wait, exit, work, take_work,
  end_work, unlink_node, queued, pending, uv__work_cancel,
}
use sebbu_c_libuv.Pool.Take.{
  IsPool, slow_count, runs, Took, take_work-Took, messages-append, queued-append,
}
use sebbu_c_libuv.Pool.Reach.{
  Job, System, start, Step, submit, post_exit_message, take, hand_back, lock_again, cancel, Reaches,
  here, then_, slow_jobs, busy_with, IsSystem, slow_jobs-append, busy_with-append,
  messages-unlink_node, queued-unlink_node, pending-unlink, length-unlink, post-IsPool, post-kept,
  post-running,
}

slow_jobs-start : (t : Taken) (js : List Job) → slow_jobs (start t js) ≡ slow_count t + slow_jobs js
slow_jobs-start wait js = omega arith
slow_jobs-start exit js = omega arith
slow_jobs-start (work true j) js = refl
slow_jobs-start (work false j) js = refl

busy_with-start :
    (i : ℕ) (t : Taken) (js : List Job) → busy_with i (start t js) ≡ runs i t + busy_with i js
busy_with-start i wait js = omega arith
busy_with-start i exit js = omega arith
busy_with-start i (work slow j) js = refl

-- What a cancellation that succeeds does.
record Cancelled (j : ℕ) (p g : Pool) : Type 0 where
  valid : IsPool g
  slow : g.slow_io_work_running ≡ p.slow_io_work_running
  kept :
      (i : ℕ)
      → queued i g.wq + pending i g.slow_io_pending_wq + (if j == i then 1 else 0)
        ≡ queued i p.wq + pending i p.slow_io_pending_wq

queued-Cancelled :
    (j : ℕ) (p : Pool)
    → IsPool p
    → 0 < queued j p.wq
    → Cancelled j p (record p { wq = unlink_node j p.wq })
unfolding slow_work_thread_threshold
queued-Cancelled j p v h = record {
  valid = record {
    once = omega (arith, v.once, messages-unlink_node j p.wq);
    posted = λ k. omega (arith, v.posted k, messages-unlink_node j p.wq);
    bounded = v.bounded;
  };
  slow = refl;
  kept = λ i. omega (arith, queued-unlink_node i j p.wq h);
}

pending-Cancelled :
    (j : ℕ) (p : Pool)
    → IsPool p
    → 0 < pending j p.slow_io_pending_wq
    → Cancelled j p (record p { slow_io_pending_wq = unlink j p.slow_io_pending_wq })
unfolding slow_work_thread_threshold
pending-Cancelled j p v h = record {
  valid = record {
    once = v.once;
    posted = λ k. v.posted (omega (arith, length-unlink j p.slow_io_pending_wq));
    bounded = v.bounded;
  };
  slow = refl;
  kept = λ i. omega (arith, pending-unlink i j p.slow_io_pending_wq h);
}

cancel-Cancelled :
    (j : ℕ) (p g : Pool) → IsPool p → uv__work_cancel j p ≡ (true, g) → Cancelled j p g
unfolding uv__work_cancel
cancel-Cancelled j p g v e = elim (Bool-cases (ltb 0 (queued j p.wq))) [
  | inl h ↦
      let k : (true, record p { wq = unlink_node j p.wq }) ≡ (true, g) = rw h at e in
      subst (λ x. Cancelled j p x) (ap (λ x. x.1) k) (queued-Cancelled j p v (ground arith))
  | inr a ↦ elim (Bool-cases (ltb 0 (pending j p.slow_io_pending_wq))) [
    | inl h ↦
        let k : (true, record p { slow_io_pending_wq = unlink j p.slow_io_pending_wq })
            ≡ (true, g) =
          rw (a, h) at e in
        subst (λ x. Cancelled j p x) (ap (λ x. x.1) k) (pending-Cancelled j p v (ground arith))
    | inr b ↦
        let k : (false, p) ≡ (true, g) = rw (a, b) at e in
        let wrong : false ≡ true = ap (λ x. x.0) k in absurd cc
  ]
]

abbrev from_some : Taken × Pool → Option (Taken × Pool) → Taken × Pool
from_some d none = d
from_some d (some x) = x

at_result : (p : Pool) (x y : Taken × Pool) → some x ≡ some y → Took p x.0 x.1 → Took p y.0 y.1
at_result p x y e o = subst (λ z. Took p z.0 z.1) (ap (from_some x) e) o

take_work-some :
    (p : Pool) (t : Taken) (g : Pool) → IsPool p → take_work 2 p ≡ some (t, g) → Took p t g
take_work-some p t g v e =
    let (t', g', e', o) = take_work-Took 0 p v in
    let same : some (t', g') ≡ some (t, g) = sym e' ∙ e in at_result p (t', g') (t, g) same o

Step-IsSystem : (s g : System) → Step s g → IsSystem s → IsSystem g
unfolding slow_work_thread_threshold post_exit end_work
Step-IsSystem s g (submit kind j) v = record {
  valid = post-IsPool kind j s.pool v.valid;
  running = post-running kind j s.pool ∙ v.running;
  conserved = λ i. omega (arith, post-kept kind j i s.pool, v.conserved i);
}
Step-IsSystem s g post_exit_message v = record {
  valid = record {
    once = omega (arith, v.valid.once, messages-append s.pool.wq (exit_message ∷ []));
    posted = λ k. omega (arith, v.valid.posted k, messages-append s.pool.wq (exit_message ∷ []));
    bounded = v.valid.bounded;
  };
  running = v.running;
  conserved = λ i. omega (arith, v.conserved i, queued-append i s.pool.wq (exit_message ∷ []));
}
Step-IsSystem s g (take t p e) v =
    let o = take_work-some s.pool t p v.valid e in
    record {
      valid = o.valid;
      running = omega (arith, o.slow, v.running, slow_jobs-start t s.busy);
      conserved = λ i. omega (arith, o.kept i, v.conserved i, busy_with-start i t s.busy);
    }
Step-IsSystem s g (hand_back front back job e) v = record {
  valid = v.valid;
  running = omega (
    arith,
    v.running,
    ap slow_jobs e,
    slow_jobs-append front (job ∷ back),
    slow_jobs-append front back,
  );
  conserved = λ i. omega (
    arith,
    v.conserved i,
    ap (busy_with i) e,
    busy_with-append i front (job ∷ back),
    busy_with-append i front back,
  );
}
Step-IsSystem s g (lock_again h) v = record {
  valid = record {
    once = v.valid.once;
    posted = v.valid.posted;
    bounded = omega (arith, v.valid.bounded);
  };
  running = omega (arith, v.running);
  conserved = v.conserved;
}
Step-IsSystem s g (cancel j p e) v =
    let c = cancel-Cancelled j s.pool p v.valid e in
    record {
      valid = c.valid;
      running = c.slow ∙ v.running;
      conserved = λ i. omega (arith, c.kept i, v.conserved i);
    }

-- In every interleaving of submissions, workers and cancellations, from any valid system on, the
-- pool stays valid: slow requests never take more than half of the threads, rounded up, the message
-- is linked whenever slow requests wait, and each request submitted is in just one place: a queue, a
-- worker or, in the end, its loop.
pub Reaches-IsSystem : (s g : System) → Reaches s g → IsSystem s → IsSystem g
Reaches-IsSystem s g here v = v
Reaches-IsSystem s g (then_ {a} r step) v = Step-IsSystem a g step (Reaches-IsSystem s a r v)
