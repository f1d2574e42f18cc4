-- ===== src/Pool/Tests.antt =====
-- threadpool.c: runs of a pool of four threads, and the theorems at concrete states.
use sebbu_c_libuv.Base.{◌≡◌, [], ◌∷◌, some, true, false, refl, arith}
use sebbu_c_libuv.Pool.{
  request, run_slow_work_message, Pool, work_slow_io, post, slow_work_thread_threshold, Taken, work,
  take_work, take_slow,
}
use sebbu_c_libuv.Pool.Take.{IsPool, Took, take_work-Took}
use sebbu_c_libuv.Pool.Reach.{System, submit, take, Reaches, here, then_, IsSystem}
use sebbu_c_libuv.Pool.Invariant.{Reaches-IsSystem}

-- Two slow requests run, one more waits, and so does the request 7.
abbrev full_pool : Pool
full_pool = record {
  nthreads = 4;
  slow_io_work_running = 2;
  wq = run_slow_work_message ∷ request 7 ∷ [];
  slow_io_pending_wq = 5 ∷ [];
}

full_pool-IsPool : IsPool full_pool
unfolding slow_work_thread_threshold
full_pool-IsPool = record { once = omega arith; posted = λ k. refl; bounded = omega arith }

-- The request is taken, and the message goes behind.
takes_seven :
    take_work 2 full_pool
    ≡ some (work false 7, record full_pool { wq = run_slow_work_message ∷ [] })
unfolding take_work slow_work_thread_threshold
takes_seven = refl

take_work-Took_example :
    (t : Taken) × (g : Pool) × (take_work 2 full_pool ≡ some (t, g)) × Took full_pool t g
take_work-Took_example = take_work-Took 0 full_pool full_pool-IsPool

abbrev fresh : System
fresh = record {
  pool = record { nthreads = 4; slow_io_work_running = 0; wq = []; slow_io_pending_wq = [] };
  busy = [];
  leaving = 0;
  returned = [];
  submitted = [];
}

fresh-IsSystem : IsSystem fresh
fresh-IsSystem = record {
  valid = record { once = omega arith; posted = λ k. absurd (omega arith); bounded = omega arith };
  running = refl;
  conserved = λ j. refl;
}

abbrev after_submit : System
after_submit = record fresh { pool = post work_slow_io 5 fresh.pool; submitted = 5 ∷ [] }

abbrev after_take : System
after_take = record after_submit {
  pool = record { nthreads = 4; slow_io_work_running = 1; wq = []; slow_io_pending_wq = [] };
  busy = record { is_slow_work = true; number = 5 } ∷ [];
}

after_take-Reaches : Reaches fresh after_take
unfolding post take_work take_slow slow_work_thread_threshold
after_take-Reaches =
    then_ (then_ here (submit work_slow_io 5)) (take (work true 5) after_take.pool refl)

Reaches-IsSystem_example : IsSystem after_take
Reaches-IsSystem_example = Reaches-IsSystem fresh after_take after_take-Reaches fresh-IsSystem
