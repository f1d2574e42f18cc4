-- ===== src/Watcher/Same.antt =====
-- unix/loop-watcher.c and win/loop-watcher.c: the two implementations compared.
use mathlib.Core.List.{append_assoc, append-nil}
use sebbu_c_libuv.Base.{
  ℕ, zero, suc, ◌≤◌, ◌≡◌, refl, sym, ap, ◌∙◌, true, false, Option, none, some, List, [], ◌∷◌, ◌++◌,
  ◌==◌, if◌then◌else◌, length, arith, List-cases, Bool-cases, inl, inr, ==_iff,
}
use sebbu_c_libuv.Base.Sublist.{IsSublist-length}
use sebbu_c_libuv.Queue.Ring.{◌∈◌, ◌∉◌}
use sebbu_c_libuv.Timer.{unlink}
use sebbu_c_libuv.Watcher.{
  Program, switch_on, switch_off, Watchers, start, stop, close, Call, call_start, call_stop,
  call_close, assign, run_call, run_calls, Visit, visit, Script, run_loop, uv__run,
}
use sebbu_c_libuv.Watcher.Windows.{
  WinWatchers, first, next_of, is_handle, win_start, win_stop, win_call, win_calls, invoke_loop,
  invoke,
}
use sebbu_c_libuv.Watcher.Valid.{IsWatchers, run_call-Kept, run_calls-Kept}
use sebbu_c_libuv.Watcher.Run.{moved, moved-IsWatchers, begin-IsWatchers, head_run, empty_run}

-- The one list of Windows is the handles that a run has left behind and those before it, and the
-- iterator is at the border.
pub record Same (s : Watchers) (w : WinWatchers) : Type 0 where
  pub handles : w.handles ≡ s.handles ++ s.queue
  pub next : w.next ≡ first s.queue
  pub program : w.program ≡ s.program

unlink-absent : (i : ℕ) (xs : List ℕ) → i ∉ xs → unlink i xs ≡ xs
unfolding unlink
unlink-absent i [] h = refl
unlink-absent i (x ∷ xs) h = elim (Bool-cases (x == i)) [
  | inl e ↦ absurd (ground arith)
  | inr e ↦ rw e (ap (◌∷◌ x) (unlink-absent i xs (ground arith)))
]

unlink-append :
    (i : ℕ) (xs ys : List ℕ) → (i ∈ xs → i ∉ ys) → unlink i (xs ++ ys) ≡ unlink i xs ++ unlink i ys
unfolding unlink
unlink-append i [] ys apart = refl
unlink-append i (x ∷ xs) ys apart = elim (Bool-cases (x == i)) [
  | inl e ↦ rw e (ap (λ z. xs ++ z) (sym (unlink-absent i ys (apart (ground arith)))))
  | inr e ↦ rw e (ap (◌∷◌ x) (unlink-append i xs ys (λ m. apart (ground arith))))
]

next_of-append : (h : ℕ) (xs rest : List ℕ) → h ∉ xs → next_of h (xs ++ h ∷ rest) ≡ first rest
next_of-append h [] rest out = ground arith
next_of-append h (x ∷ xs) rest out = elim (Bool-cases (x == h)) [
  | inl e ↦ absurd (ground arith)
  | inr e ↦ rw e (next_of-append h xs rest (ground arith))
]

-- Where the iterator is after a handle was stopped.
next-unlink :
    (i : ℕ) (xs queue : List ℕ)
    → (i ∈ xs → i ∉ queue)
    → (if is_handle (first queue) i then next_of i (xs ++ queue) else first queue)
      ≡ first (unlink i queue)
unfolding unlink
next-unlink i xs [] apart = refl
next-unlink i xs (q ∷ queue) apart = elim (Bool-cases (q == i)) [
  | inl e ↦
      let is : q ≡ i = (==_iff q i).0 e in rw (e, is, next_of-append i xs queue (ground arith))
  | inr e ↦ rw e refl
]

module _ (i : ℕ) (s : Watchers) (w : WinWatchers) (r : Same s w) where
  alike-true : (s.program.flags i).active ≡ true → (w.program.flags i).active ≡ true
  alike-true on = ap (λ p. (p.flags i).active) r.program ∙ on

  alike-false : (s.program.flags i).active ≡ false → (w.program.flags i).active ≡ false
  alike-false off = ap (λ p. (p.flags i).active) r.program ∙ off

start-Same :
    (i : ℕ) (cb : Option ℕ) (s : Watchers) (w : WinWatchers)
    → Same s w
    → Same ((start i cb s).1) ((win_start i cb w).1)
unfolding start win_start
start-Same i none s w r = elim (Bool-cases (s.program.flags i).active) [
  | inl on ↦ rw (on, alike-true i s w r on) r
  | inr off ↦ rw (off, alike-false i s w r off) r
]
start-Same i (some c) s w r = elim (Bool-cases (s.program.flags i).active) [
  | inl on ↦ rw (on, alike-true i s w r on) r
  | inr off ↦
      rw (off, alike-false i s w r off)
        (record {
          handles = ap (◌∷◌ i) r.handles;
          next = r.next;
          program = ap (switch_on i c) r.program;
        })
]

stop-Same :
    (i : ℕ) (s : Watchers) (w : WinWatchers)
    → IsWatchers s
    → Same s w
    → Same (stop i s) (win_stop i w)
unfolding stop win_stop
stop-Same i s w v r = elim (Bool-cases (s.program.flags i).active) [
  | inl on ↦
      rw (on, alike-true i s w r on)
        (record {
          handles = ap (unlink i) r.handles ∙ unlink-append i s.handles s.queue (v.apart i);
          next = rw (r.next, r.handles) (next-unlink i s.handles s.queue (v.apart i));
          program = ap (switch_off i) r.program;
        })
  | inr off ↦ rw (off, alike-false i s w r off) r
]

abbrev set_variables : ℕ → Program → Program
set_variables n p = record p { variables = n }

-- Windows counts a handle that is closing as active and marks it, which Unix leaves to the end of
-- closing.
abbrev pub NeverCloses : List Call → Type 0
NeverCloses [] = Unit
NeverCloses (call_close i ∷ cs) = ⊥
NeverCloses (call_start i cb ∷ cs) = NeverCloses cs
NeverCloses (call_stop i ∷ cs) = NeverCloses cs
NeverCloses (assign n ∷ cs) = NeverCloses cs

run_call-Same :
    (c : Call) (s : Watchers) (w : WinWatchers)
    → NeverCloses (c ∷ [])
    → IsWatchers s
    → Same s w
    → Same (run_call c s) (win_call c w)
unfolding run_call win_call close
run_call-Same (call_start i cb) s w never v r = start-Same i cb s w r
run_call-Same (call_stop i) s w never v r = stop-Same i s w v r
run_call-Same (call_close i) s w never v r = absurd never
run_call-Same (assign n) s w never v r = record {
  handles = r.handles;
  next = r.next;
  program = ap (set_variables n) r.program;
}

NeverCloses-split :
    (c : Call) (cs : List Call) → NeverCloses (c ∷ cs) → NeverCloses (c ∷ []) × NeverCloses cs
NeverCloses-split (call_start i cb) cs h = (tt, h)
NeverCloses-split (call_stop i) cs h = (tt, h)
NeverCloses-split (call_close i) cs h = absurd h
NeverCloses-split (assign n) cs h = (tt, h)

pub run_calls-Same :
    (cs : List Call) (s : Watchers) (w : WinWatchers)
    → NeverCloses cs
    → IsWatchers s
    → Same s w
    → Same (run_calls cs s) (win_calls cs w)
unfolding run_calls win_calls
run_calls-Same [] s w never v r = r
run_calls-Same (c ∷ cs) s w never v r =
    let (one, rest) = NeverCloses-split c cs never in
    run_calls-Same cs (run_call c s) (win_call c w) rest (run_call-Kept c s v).valid
      (run_call-Same c s w one v r)

-- The rounds that a list of visits takes.
module _ (script : Script) where
  win_empty_run :
      (fuel : ℕ) (w : WinWatchers) → w.next ≡ none → invoke_loop script fuel w ≡ some (w, [])
  unfolding invoke_loop
  win_empty_run zero w e = simp (invoke_loop, e)
  win_empty_run (suc fuel) w e = simp (invoke_loop, e)

  win_head_run :
      (fuel h : ℕ) (w : WinWatchers)
      → w.next ≡ some h
      → invoke_loop script (suc fuel) w
        ≡ visit
            (record { handle = h; calls = script h w.program })
            (invoke_loop script fuel
              (win_calls (script h w.program) (record w { next = next_of h w.handles })))
  unfolding invoke_loop
  win_head_run fuel h w e = simp (invoke_loop, e)

  -- The iterator moves on as the head of the queue is moved behind the handles.
  moved-Same :
      (s : Watchers) (w : WinWatchers) (h : ℕ) (rest : List ℕ)
      → IsWatchers s
      → Same s w
      → s.queue ≡ h ∷ rest
      → Same (moved s h rest) (record w { next = next_of h w.handles })
  moved-Same s w h rest v r e =
      let apart : h ∈ s.handles → h ∉ (h ∷ rest) = rw e at (v.apart h) in
      let out : h ∉ s.handles = ground (arith, apart) in
      record {
        handles = r.handles ∙ rw e (sym (append_assoc s.handles (h ∷ []) rest));
        next = rw (r.handles, e) (next_of-append h s.handles rest out);
        program = r.program;
      }

  -- Both loops end, with the same calls and with states that belong together.
  abbrev Together : ℕ → Watchers → WinWatchers → Type 0
  Together fuel s w =
      (g : Watchers) × (g' : WinWatchers) × (vs : List Visit) × (run_loop script fuel s
        ≡ some (g, vs))
      × (invoke_loop script fuel w ≡ some (g', vs))
      × Same g g'
      × (g.queue ≡ [])

  done-Together :
      (fuel : ℕ) (s : Watchers) (w : WinWatchers) → Same s w → s.queue ≡ [] → Together fuel s w
  done-Together fuel s w r e =
      (s, w, [], empty_run script fuel s e, win_empty_run fuel w (r.next ∙ ap first e), r, e)

  module _ (never : (h : ℕ) (p : Program) → NeverCloses (script h p)) where
    loops-Together :
        (fuel : ℕ) (s : Watchers) (w : WinWatchers)
        → IsWatchers s
        → Same s w
        → length s.queue ≤ fuel
        → Together fuel s w
    loops-Together zero s w v r enough = elim (List-cases s.queue) [
      | inl e ↦ done-Together zero s w r e
      | inr (h, rest, e) ↦ absurd (omega (arith, rw e at (enough)))
    ]
    loops-Together (suc fuel) s w v r enough = elim (List-cases s.queue) [
      | inl e ↦ done-Together (suc fuel) s w r e
      | inr (h, rest, e) ↦
          let calls = script h s.program in
          let m = moved-IsWatchers s h rest v e in
          let k = run_calls-Kept calls (moved s h rest) m in
          let w1 = record w { next = next_of h w.handles } in
          let (g, g', vs, ran, win_ran, rel, done) =
            loops-Together fuel (run_calls calls (moved s h rest)) (win_calls calls w1) k.valid
              (run_calls-Same calls (moved s h rest) w1 (never h s.program) m
                (moved-Same s w h rest v r e))
              (omega (arith, IsSublist-length k.shrinks, rw e at (enough))) in
          (
            g,
            g',
            record { handle = h; calls = calls } ∷ vs,
            head_run script fuel h rest s e ∙ ap (visit (record { handle = h; calls = calls })) ran,
            win_head_run fuel h w (r.next ∙ ap first e)
                ∙ ap
                    (λ p.
                      visit (record { handle = h; calls = script h p })
                        (invoke_loop script fuel (win_calls (script h p) w1)))
                    r.program
                ∙ ap (visit (record { handle = h; calls = calls })) win_ran,
            rel,
            done,
          )
    ]

    -- On the same handles, with callbacks that start and stop handles but close none, the run of Unix
    -- and the run of Windows call the same callbacks in the same order and leave the same list, flags
    -- and count: the iterator of one and the two queues of the other amount to the same.
    pub uv__run-invoke :
        (s : Watchers) (w : WinWatchers)
        → IsWatchers s
        → s.queue ≡ []
        → w.handles ≡ s.handles
        → w.program ≡ s.program
        → (g : Watchers) × (g' : WinWatchers) × (vs : List Visit) × (uv__run script s
            ≡ some (g, vs))
          × (invoke script w ≡ some (g', vs))
          × (g'.handles ≡ g.handles)
          × (g'.program ≡ g.program)
    unfolding uv__run invoke
    uv__run-invoke s w v no_queue same_handles same_program =
        let s1 = record s { handles = []; queue = s.handles } in
        let w1 = record w { next = first w.handles } in
        let r : Same s1 w1 = record {
          handles = same_handles;
          next = ap first same_handles;
          program = same_program;
        } in
        let (g, g', vs, ran, win_ran, rel, done) =
          loops-Together (length s.handles) s1 w1 (begin-IsWatchers s v no_queue) r (omega arith) in
        (
          g,
          g',
          vs,
          ran,
          ap (λ xs. invoke_loop script (length xs) w1) same_handles ∙ win_ran,
          rel.handles ∙ rw done (append-nil g.handles),
          rel.program,
        )
