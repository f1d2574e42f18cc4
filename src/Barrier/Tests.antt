-- ===== src/Barrier/Tests.antt =====
-- thread-common.c: two threads that meet at a barrier, and the theorem at that run.
use sebbu_c_libuv.Base.{ℕ, ◌+◌, ◌*◌, ◌≤◌, ◌<◌, ◌≡◌, refl, true, false, [], ◌∷◌, length, arith}
use sebbu_c_libuv.Barrier.{enter, resume, leave}
use sebbu_c_libuv.Barrier.Reach.{
  System, enter_joined, enter_left, resume_left, Reaches, here, step, fresh,
}
use sebbu_c_libuv.Barrier.Invariant.{lasts, Reaches-rounds}

-- The first thread waits, the second one leaves at once, and the first one leaves as the last.
abbrev met : System
met = record {
  barrier = record { in_ = 0; out = 0; threshold = 2 };
  waiting = 0;
  arrived = 2;
  results = true ∷ false ∷ [];
}

met-Reaches : Reaches (fresh 2) met
unfolding enter resume leave
met-Reaches =
    step (step (step here (enter_joined refl)) (enter_left refl)) (resume_left (omega arith) refl)

Reaches-rounds_example :
    (rounds : ℕ) × (2 * rounds ≤ 2)
    × (2 < 2 * rounds + 2)
    × (0 + length (true ∷ false ∷ []) ≡ 2)
    × (length (true ∷ false ∷ []) ≤ 2 * rounds)
    × (2 * rounds < 2 → length (true ∷ false ∷ []) ≡ 2 * rounds)
    × (over : ℕ) × (lasts (true ∷ false ∷ []) ≡ over)
    × (rounds ≤ over + 1)
    × (over ≤ rounds)
    × (2 * over ≤ length (true ∷ false ∷ []))
    × (length (true ∷ false ∷ []) < 2 * over + 2)
Reaches-rounds_example = Reaches-rounds 2 met (omega arith) met-Reaches
