-- ===== src/Barrier/Reach.antt =====
-- thread-common.c: threads that use a barrier, as a step relation.
use sebbu_c_libuv.Base.{ℕ, ◌+◌, ◌-◌, ◌<◌, ◌≡◌, Bool, List, [], ◌∷◌}
use sebbu_c_libuv.Barrier.{Barrier, blocked, joined, left, enter, resume}

-- The threads in the second wait, how many have come past the first one so far, and the results that
-- were returned, the last one first.
pub record System : Type 0 where
  pub barrier : Barrier
  pub waiting : ℕ
  pub arrived : ℕ
  pub results : List Bool

pub data Step : System → System → Type 0 where
  enter_joined :
      {s : System} {b : Barrier}
      → enter s.barrier ≡ joined b
      → Step s (record s { barrier = b; waiting = s.waiting + 1; arrived = s.arrived + 1 })
  enter_left :
      {s : System} {last : Bool} {b : Barrier}
      → enter s.barrier ≡ left last b
      → Step s (record s { barrier = b; arrived = s.arrived + 1; results = last ∷ s.results })
  enter_blocked : {s : System} → enter s.barrier ≡ blocked → Step s s
  resume_left :
      {s : System} {last : Bool} {b : Barrier}
      → 0 < s.waiting
      → resume s.barrier ≡ left last b
      → Step s (record s { barrier = b; waiting = s.waiting - 1; results = last ∷ s.results })
  resume_blocked : {s : System} → 0 < s.waiting → resume s.barrier ≡ blocked → Step s s

pub data Reaches : System → System → Type 0 where
  here : {s : System} → Reaches s s
  step : {s t u : System} → Reaches s t → Step t u → Reaches s u

abbrev pub fresh : ℕ → System
fresh count = record {
  barrier = record { in_ = 0; out = 0; threshold = count };
  waiting = 0;
  arrived = 0;
  results = [];
}
