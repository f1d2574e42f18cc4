-- ===== src/Pool.antt =====
-- threadpool.c: the work queue of the thread pool.
--
-- What a worker does while it holds the mutex is one function, and so is each post and cancel; the
-- steps of several workers interleave in between. Waiting on the condition variable is an outcome of
-- the function; the signals that end the wait are left out.
pub mod Take
pub mod Reach
pub mod Invariant
mod Tests
use sebbu_c_libuv.Base.{
  ℕ, zero, suc, ◌+◌, ◌-◌, ◌/◌, Bool, true, false, not, ◌&&◌, ◌||◌, Option, none, some, List, [],
  ◌∷◌, ◌++◌, length, ltb, leb, ◌==◌, if◌then◌else◌,
}
use sebbu_c_libuv.Timer.{unlink}

-- The nodes of `wq`: a request, named by a number, or one of the two messages.
pub data Node : Type 0 where
  request : ℕ → Node
  run_slow_work_message exit_message : Node

-- The variables that `mutex` protects.
pub record Pool : Type 0 where
  pub nthreads : ℕ
  pub slow_io_work_running : ℕ
  pub wq : List Node
  pub slow_io_pending_wq : List ℕ

pub data Kind : Type 0 where
  work_cpu work_fast_io work_slow_io : Kind

unfoldable pub slow_work_thread_threshold : Pool → ℕ
slow_work_thread_threshold p = (p.nthreads + 1) / 2

-- How often `run_slow_work_message` is linked into `wq`.
abbrev pub messages : List Node → ℕ
messages [] = 0
messages (request j ∷ q) = messages q
messages (run_slow_work_message ∷ q) = suc (messages q)
messages (exit_message ∷ q) = messages q

unfoldable pub post : Kind → ℕ → Pool → Pool
post work_slow_io j p =
    let pending = p.slow_io_pending_wq ++ j ∷ [] in
    if ltb 0 (messages p.wq)
    then record p { slow_io_pending_wq = pending }
    else record p { slow_io_pending_wq = pending; wq = p.wq ++ run_slow_work_message ∷ [] }
post work_cpu j p = record p { wq = p.wq ++ request j ∷ [] }
post work_fast_io j p = record p { wq = p.wq ++ request j ∷ [] }

-- `uv__threadpool_cleanup` posts the exit message.
unfoldable pub post_exit : Pool → Pool
post_exit p = record p { wq = p.wq ++ exit_message ∷ [] }

-- What a worker leaves the mutex for.
pub data Taken : Type 0 where
  wait exit : Taken
  work : (is_slow_work : Bool) (j : ℕ) → Taken

abbrev pub at_threshold : Pool → Bool
at_threshold p = leb (slow_work_thread_threshold p) p.slow_io_work_running

-- The first of the slow requests is taken, and the message posted again if there are more.
unfoldable pub take_slow : Pool → ℕ → List ℕ → Pool
take_slow p j js = record p {
  slow_io_work_running = p.slow_io_work_running + 1;
  slow_io_pending_wq = js;
  wq = if length js == 0 then p.wq else p.wq ++ run_slow_work_message ∷ [];
}

-- The body of the loop in `worker`, from where the mutex is locked to where it is released. `none`
-- is a loop that needs more rounds.
unfoldable pub take_work : ℕ → Pool → Option (Taken × Pool)
take_work zero p = none
take_work (suc fuel) p = elim (p.wq) [
  | [] ↦ some (wait, p)
  | request j ∷ q ↦ some (work false j, record p { wq = q })
  | exit_message ∷ q ↦ some (exit, p)
  | run_slow_work_message ∷ q ↦
      let later = take_work fuel (record p { wq = q ++ run_slow_work_message ∷ [] }) in
      let again = take_work fuel (record p { wq = q }) in
      if at_threshold p
      then if length q == 0 then some (wait, p) else later
      else elim (p.slow_io_pending_wq) [
        | [] ↦ again
        | j ∷ js ↦ some (work true j, take_slow (record p { wq = q }) j js)
      ]
]

-- The end of a request, with the mutex locked again.
unfoldable pub end_work : Bool → Pool → Pool
end_work is_slow_work p =
    if is_slow_work then record p { slow_io_work_running = p.slow_io_work_running - 1 } else p

-- `uv__queue_remove` on a request in `wq`.
unfoldable pub unlink_node : ℕ → List Node → List Node
unlink_node j [] = []
unlink_node j (request i ∷ q) = if i == j then q else request i ∷ unlink_node j q
unlink_node j (run_slow_work_message ∷ q) = run_slow_work_message ∷ unlink_node j q
unlink_node j (exit_message ∷ q) = exit_message ∷ unlink_node j q

abbrev pub queued : ℕ → List Node → ℕ
queued j [] = 0
queued j (request i ∷ q) = (if i == j then 1 else 0) + queued j q
queued j (run_slow_work_message ∷ q) = queued j q
queued j (exit_message ∷ q) = queued j q

abbrev pub pending : ℕ → List ℕ → ℕ
pending j [] = 0
pending j (i ∷ js) = (if i == j then 1 else 0) + pending j js

-- `uv__work_cancel` of a request that was not cancelled before: whether it was still in one of the
-- two queues, which it then leaves.
unfoldable pub uv__work_cancel : ℕ → Pool → Bool × Pool
uv__work_cancel j p =
    if ltb 0 (queued j p.wq)
    then (true, record p { wq = unlink_node j p.wq })
    else if ltb 0 (pending j p.slow_io_pending_wq)
    then (true, record p { slow_io_pending_wq = unlink j p.slow_io_pending_wq })
    else (false, p)
