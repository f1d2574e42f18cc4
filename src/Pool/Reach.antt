-- ===== src/Pool/Reach.antt =====
-- threadpool.c: all interleavings of submissions, workers and cancellations.
use sebbu_c_libuv.Base.{
  ℕ, suc, ◌+◌, ◌-◌, ◌≤◌, ◌<◌, ◌≡◌, inl, inr, refl, ap, Bool, true, some, List, [], ◌∷◌, ◌++◌,
  length, ltb, ◌==◌, if◌then◌else◌, arith, Bool-cases,
}
use sebbu_c_libuv.Timer.{unlink}
use sebbu_c_libuv.Pool.{
  Node, request, run_slow_work_message, exit_message, Pool, Kind, work_cpu, work_fast_io,
  work_slow_io, slow_work_thread_threshold, messages, post, post_exit, Taken, wait, exit, work,
  take_work, end_work, unlink_node, queued, pending, uv__work_cancel,
}
use sebbu_c_libuv.Pool.Take.{IsPool, messages-append, queued-append}

-- A request that a worker runs, and whether as slow work.
pub record Job : Type 0 where
  pub is_slow_work : Bool
  pub number : ℕ

-- The pool, the requests that workers run, the number of workers that have handed slow work back but
-- not locked the mutex again, the requests handed back to their loops, and all that were submitted.
pub record System : Type 0 where
  pub pool : Pool
  pub busy : List Job
  pub leaving : ℕ
  pub returned : List ℕ
  pub submitted : List ℕ

abbrev pub start : Taken → List Job → List Job
start wait js = js
start exit js = js
start (work slow j) js = record { is_slow_work = slow; number = j } ∷ js

-- One critical section of some thread.
pub data Step (s : System) : System → Type 0 where
  submit :
      (kind : Kind) (j : ℕ)
      → Step s (record s { pool = post kind j s.pool; submitted = j ∷ s.submitted })
  post_exit_message : Step s (record s { pool = post_exit s.pool })
  take :
      (t : Taken) (g : Pool)
      → take_work 2 s.pool ≡ some (t, g)
      → Step s (record s { pool = g; busy = start t s.busy })
  hand_back :
      (front back : List Job) (job : Job)
      → s.busy ≡ front ++ job ∷ back
      → Step s (record s {
        busy = front ++ back;
        leaving = (if job.is_slow_work then 1 else 0) + s.leaving;
        returned = job.number ∷ s.returned;
      })
  lock_again :
      0 < s.leaving → Step s (record s { pool = end_work true s.pool; leaving = s.leaving - 1 })
  cancel :
      (j : ℕ) (g : Pool)
      → uv__work_cancel j s.pool ≡ (true, g)
      → Step s (record s { pool = g; returned = j ∷ s.returned })

pub data Reaches (s : System) : System → Type 0 where
  here : Reaches s s
  then_ : {a b : System} → Reaches s a → Step a b → Reaches s b

abbrev pub slow_jobs : List Job → ℕ
slow_jobs [] = 0
slow_jobs (job ∷ js) = (if job.is_slow_work then 1 else 0) + slow_jobs js

abbrev pub busy_with : ℕ → List Job → ℕ
busy_with j [] = 0
busy_with j (job ∷ js) = (if job.number == j then 1 else 0) + busy_with j js

-- The pool is valid, `slow_io_work_running` is the number of slow requests that run, and every
-- request submitted is in just one place: a queue, a worker or a loop.
pub record IsSystem (s : System) : Type 0 where
  pub valid : IsPool s.pool
  pub running : s.pool.slow_io_work_running ≡ slow_jobs s.busy + s.leaving
  pub conserved :
      (j : ℕ)
      → queued j s.pool.wq
          + pending j s.pool.slow_io_pending_wq
          + busy_with j s.busy
          + pending j s.returned
        ≡ pending j s.submitted

pub pending-append : (j : ℕ) (xs ys : List ℕ) → pending j (xs ++ ys) ≡ pending j xs + pending j ys
pending-append j [] ys = omega arith
pending-append j (x ∷ xs) ys = omega (arith, pending-append j xs ys)

pub slow_jobs-append : (xs ys : List Job) → slow_jobs (xs ++ ys) ≡ slow_jobs xs + slow_jobs ys
slow_jobs-append [] ys = omega arith
slow_jobs-append (x ∷ xs) ys = omega (arith, slow_jobs-append xs ys)

pub busy_with-append :
    (j : ℕ) (xs ys : List Job) → busy_with j (xs ++ ys) ≡ busy_with j xs + busy_with j ys
busy_with-append j [] ys = omega arith
busy_with-append j (x ∷ xs) ys = omega (arith, busy_with-append j xs ys)

pub messages-unlink_node : (j : ℕ) (q : List Node) → messages (unlink_node j q) ≡ messages q
unfolding unlink_node
messages-unlink_node j [] = refl
messages-unlink_node j (request i ∷ q) = ground (arith, messages-unlink_node j q)
messages-unlink_node j (run_slow_work_message ∷ q) = ap suc (messages-unlink_node j q)
messages-unlink_node j (exit_message ∷ q) = messages-unlink_node j q

pub queued-unlink_node :
    (i j : ℕ) (q : List Node)
    → 0 < queued j q
    → queued i (unlink_node j q) + (if j == i then 1 else 0) ≡ queued i q
unfolding unlink_node
queued-unlink_node i j [] k = absurd (omega arith)
queued-unlink_node i j (request n ∷ q) k = ground (arith, queued-unlink_node i j q)
queued-unlink_node i j (run_slow_work_message ∷ q) k = queued-unlink_node i j q k
queued-unlink_node i j (exit_message ∷ q) k = queued-unlink_node i j q k

pub pending-unlink :
    (i j : ℕ) (q : List ℕ)
    → 0 < pending j q
    → pending i (unlink j q) + (if j == i then 1 else 0) ≡ pending i q
unfolding unlink
pending-unlink i j [] k = absurd (omega arith)
pending-unlink i j (n ∷ q) k = ground (arith, pending-unlink i j q)

pub length-unlink : (j : ℕ) (q : List ℕ) → length (unlink j q) ≤ length q
unfolding unlink
length-unlink j [] = omega arith
length-unlink j (n ∷ q) = ground (arith, length-unlink j q)

-- Posting.
pub post-IsPool : (kind : Kind) (j : ℕ) (p : Pool) → IsPool p → IsPool (post kind j p)
unfolding post slow_work_thread_threshold
post-IsPool work_cpu j p v = record {
  once = omega (arith, v.once, messages-append p.wq (request j ∷ []));
  posted = λ k. omega (arith, v.posted k, messages-append p.wq (request j ∷ []));
  bounded = v.bounded;
}
post-IsPool work_fast_io j p v = record {
  once = omega (arith, v.once, messages-append p.wq (request j ∷ []));
  posted = λ k. omega (arith, v.posted k, messages-append p.wq (request j ∷ []));
  bounded = v.bounded;
}
post-IsPool work_slow_io j p v = elim (Bool-cases (ltb 0 (messages p.wq))) [
  | inl linked ↦
      rw linked
        (record { once = v.once; posted = λ k. ground (arith, v.once); bounded = v.bounded })
  | inr fresh ↦ rw fresh (record {
    once = ground (arith, messages-append p.wq (run_slow_work_message ∷ []));
    posted = λ k. ground (arith, messages-append p.wq (run_slow_work_message ∷ []));
    bounded = v.bounded;
  })
]

pub post-kept :
    (kind : Kind) (j i : ℕ) (p : Pool)
    → queued i (post kind j p).wq + pending i (post kind j p).slow_io_pending_wq
      ≡ (if j == i then 1 else 0) + queued i p.wq + pending i p.slow_io_pending_wq
unfolding post
post-kept work_cpu j i p = omega (arith, queued-append i p.wq (request j ∷ []))
post-kept work_fast_io j i p = omega (arith, queued-append i p.wq (request j ∷ []))
post-kept work_slow_io j i p = ground (
  arith,
  queued-append i p.wq (run_slow_work_message ∷ []),
  pending-append i p.slow_io_pending_wq (j ∷ []),
)

pub post-running :
    (kind : Kind) (j : ℕ) (p : Pool) → (post kind j p).slow_io_work_running ≡ p.slow_io_work_running
unfolding post
post-running work_cpu j p = refl
post-running work_fast_io j p = refl
post-running work_slow_io j p = ground arith
