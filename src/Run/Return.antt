-- ===== src/Run/Return.antt =====
-- unix/core.c: that uv_run returns, and what it returns.
use sebbu_c_libuv.Base.{
  ℕ, zero, suc, ◌<◌, ◌≡◌, ◌⊎◌, inl, inr, refl, ◌∙◌, sym, Bool, true, false, not, ◌&&◌, some, [],
  arith, Bool-cases,
}
use sebbu_c_libuv.Run.{
  Mode, Loop, Event, State, uv__loop_alive, iteration, is_default, run_loop, before_loop, uv_run,
}
use sebbu_c_libuv.Run.Poll.{Sound, iteration-Sound, before_loop-Sound}

module _ (react : Event → Loop → Loop) (mode : Mode) where
  -- The rounds of UV_RUN_DEFAULT run down, as long as the loop goes on.
  abbrev pub RunsDown : (State → ℕ) → Type 0
  RunsDown measure =
      is_default mode ≡ true
      → (s : State) → s.0.stop_flag ≡ false
      → uv__loop_alive ((iteration react mode s).0) ≡ true
      → (iteration react mode s).0.stop_flag ≡ false
      → measure (iteration react mode s) < measure s

  -- What the loop of `uv_run` comes to.
  pub record Returned (r : Bool) (s : State) (r' : Bool) (g : State) : Type 0 where
    pub sound : Sound mode g.1
    pub dead : r' ≡ false → (r ≡ false) ⊎ (uv__loop_alive g.0 ≡ false)
    pub stopped : is_default mode ≡ true → r' ≡ true → g.0.stop_flag ≡ true

  end_run :
      (fuel : ℕ) (r : Bool) (s : State)
      → (r && not s.0.stop_flag) ≡ false
      → run_loop react fuel mode r s ≡ some (r, s)
  unfolding run_loop
  end_run zero r s e = rw (run_loop, e) refl
  end_run (suc fuel) r s e = rw (run_loop, e) refl

  module _ (fuel : ℕ) (r : Bool) (s : State) (e : (r && not s.0.stop_flag) ≡ true) where
    once_run :
        is_default mode ≡ false
        → run_loop react (suc fuel) mode r s
          ≡ some (uv__loop_alive ((iteration react mode s).0), iteration react mode s)
    unfolding run_loop
    once_run once = simp (run_loop, e, once)

    next_run :
        is_default mode ≡ true
        → run_loop react (suc fuel) mode r s
          ≡ run_loop react fuel mode
              (uv__loop_alive ((iteration react mode s).0))
              (iteration react mode s)
    unfolding run_loop
    next_run default = simp (run_loop, e, default)

  abbrev Ending : ℕ → Bool → State → Type 0
  Ending fuel r s =
      (r' : Bool) × (g : State) × (run_loop react fuel mode r s ≡ some (r', g)) × Returned r s r' g

  ended :
      (fuel : ℕ) (r : Bool) (s : State)
      → Sound mode s.1
      → (r && not s.0.stop_flag) ≡ false
      → Ending fuel r s
  ended fuel r s sound e = (
    r,
    s,
    end_run fuel r s e,
    record { sound = sound; dead = λ h. inl h; stopped = λ d h. ground arith },
  )

  module _ (measure : State → ℕ) (down : RunsDown measure) where
    run_loop-Returned :
        (fuel : ℕ) (r : Bool) (s : State) → Sound mode s.1 → measure s < fuel → Ending fuel r s
    run_loop-Returned zero r s sound lt = absurd (omega arith)
    run_loop-Returned (suc fuel) r s sound lt = elim (Bool-cases (r && not s.0.stop_flag)) [
      | inr e ↦ ended (suc fuel) r s sound e
      | inl e ↦
          let s1 = iteration react mode s in
          let sound1 = iteration-Sound react mode s sound in
          elim (Bool-cases (is_default mode)) [
            | inr once ↦ (
              uv__loop_alive s1.0,
              s1,
              once_run fuel r s e once,
              record { sound = sound1; dead = λ h. inr h; stopped = λ d h. absurd cc },
            )
            | inl default ↦
                let r1 = uv__loop_alive s1.0 in
                let next = next_run fuel r s e default in
                elim (Bool-cases (r1 && not s1.0.stop_flag)) [
                  | inr over ↦ (
                    r1,
                    s1,
                    next ∙ end_run fuel r1 s1 over,
                    record { sound = sound1; dead = λ h. inr h; stopped = λ d h. ground arith },
                  )
                  | inl on ↦
                      let alive : r1 ≡ true = ground arith in
                      let (r', g, ran, w) =
                        run_loop-Returned fuel r1 s1 sound1
                          (omega (arith, lt, down default s (ground arith) alive (ground arith))) in
                      (
                        r',
                        g,
                        next ∙ ran,
                        record {
                          sound = w.sound;
                          dead = λ h. elim (w.dead h) [
                            | inl k ↦ absurd (let c : true ≡ false = sym alive ∙ k in cc)
                            | inr k ↦ inr k
                          ];
                          stopped = w.stopped;
                        },
                      )
                ]
          ]
    ]

-- `uv_run` returns after as many rounds as the measure says: with UV_RUN_ONCE and UV_RUN_NOWAIT for
-- any measure, and with UV_RUN_DEFAULT if each round that leaves the loop alive and not stopped
-- lowers it. Each poll on the way is without a wait, or else the mode allows it, the loop is alive
-- and not stopped, and no callback and no handle waits to be called or closed; it then sleeps until
-- the next timer. The result is zero only if the loop was not alive at the start or is not at the
-- end, UV_RUN_DEFAULT gives another one only if a stop was asked for, and the stop flag is cleared.
pub uv_run-Returned :
    (react : Event → Loop → Loop) (mode : Mode) (measure : State → ℕ) (fuel : ℕ) (s : Loop)
    → RunsDown react mode measure
    → measure (before_loop react mode (s, [])) < fuel
    → (r : Bool) × (g : State) × (uv_run react fuel mode (s, [])
        ≡ some (r, (record (g.0) { stop_flag = false }, g.1)))
      × Sound mode g.1
      × (r ≡ false → (uv__loop_alive s ≡ false) ⊎ (uv__loop_alive g.0 ≡ false))
      × (is_default mode ≡ true → r ≡ true → g.0.stop_flag ≡ true)
unfolding uv_run
uv_run-Returned react mode measure fuel s down lt =
    let b = before_loop react mode (s, []) in
    let (r, g, ran, w) =
      run_loop-Returned react mode measure down fuel (uv__loop_alive s) b
        (before_loop-Sound react mode (s, []) tt) lt in
    (r, g, rw (uv_run, ran) refl, w.sound, w.dead, w.stopped)
