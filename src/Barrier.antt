-- ===== src/Barrier.antt =====
-- thread-common.c: the barrier of platforms without one of their own.
--
-- A thread holds the mutex from one wait on the condition variable to the next, so what it does in
-- between is one function. A wait may end at any time, as the loops around it allow for.
pub mod Reach
pub mod Invariant
mod Tests
use sebbu_c_libuv.Base.{ℕ, ◌+◌, ◌-◌, Bool, true, false, not, ◌==◌, if◌then◌else◌}

-- `in_` and `out`, which are unsigned int.
pub record Barrier : Type 0 where
  pub in_ : ℕ
  pub out : ℕ
  pub threshold : ℕ

pub data Status : Type 0 where
  ok einval enomem : Status

-- Where a thread is at the end of a section: in a wait again, in the wait for the others, or out of
-- the function, with its result.
pub data Section : Type 0 where
  blocked : Section
  joined : Barrier → Section
  left : (last : Bool) → Barrier → Section

-- `memory` is whether the barrier can be allocated; the mutex and the condition variable are made
-- without an error.
unfoldable pub uv_barrier_init : (memory : Bool) → (count : ℕ) → Barrier → Status × Barrier
uv_barrier_init memory count b =
    if count == 0
    then (einval, b)
    else if not memory
    then (enomem, b)
    else (ok, record { in_ = 0; out = 0; threshold = count })

-- The end of `uv_barrier_wait`.
unfoldable pub leave : Barrier → Section
leave b = left (b.out - 1 == 0) (record b { out = b.out - 1 })

-- From the call, or from the first wait, on.
unfoldable pub enter : Barrier → Section
enter b =
    if not (b.out == 0)
    then blocked
    else if b.in_ + 1 == b.threshold
    then leave (record b { in_ = 0; out = b.threshold })
    else joined (record b { in_ = b.in_ + 1 })

-- From the second wait on.
unfoldable pub resume : Barrier → Section
resume b = if not (b.in_ == 0) then blocked else leave b
