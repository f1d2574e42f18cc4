-- ===== src/Watcher/Run.antt =====
-- unix/loop-watcher.c: uv__run_idle, uv__run_prepare and uv__run_check.
use sebbu_c_libuv.Base.{
  ℕ, zero, suc, ◌≤◌, ◌≡◌, refl, ap, ◌∙◌, Bool, true, false, ◌||◌, some, List, [], ◌∷◌, ◌++◌, ◌==◌,
  length, arith, List-cases, inl, inr,
}
use sebbu_c_libuv.Base.Sublist.{IsSublist, nil, keep, IsSublist-trans, IsSublist-length}
use sebbu_c_libuv.Queue.Ring.{has, ◌∈◌, ◌∉◌, IsDistinct, has-append, IsDistinct-append}
use sebbu_c_libuv.Watcher.{Watchers, Call, run_calls, Visit, visit, Script, run_loop, uv__run}
use sebbu_c_libuv.Watcher.Valid.{IsWatchers, stops, run_calls-Kept}

abbrev pub visited : List Visit → List ℕ
visited [] = []
visited (v ∷ vs) = v.handle ∷ visited vs

-- Whether a callback stopped the handle during the run.
abbrev pub stopped : ℕ → List Visit → Bool
stopped i [] = false
stopped i (v ∷ vs) = stops i v.calls || stopped i vs

pub record Ran (s g : Watchers) (vs : List Visit) : Type 0 where
  pub valid : IsWatchers g
  pub empty : g.queue ≡ []
  pub order : IsSublist (visited vs) s.queue
  pub all : (i : ℕ) → i ∈ s.queue → (has i (visited vs) || stopped i vs) ≡ true

-- The head of the queue is moved behind the handles.
abbrev pub moved : Watchers → ℕ → List ℕ → Watchers
moved s h rest = record s { queue = rest; handles = s.handles ++ h ∷ [] }

pub moved-IsWatchers :
    (s : Watchers) (h : ℕ) (rest : List ℕ)
    → IsWatchers s
    → s.queue ≡ h ∷ rest
    → IsWatchers (moved s h rest)
moved-IsWatchers s h rest v e =
    let d : IsDistinct (h ∷ rest) = rw e at (v.queue) in
    let apart : (i : ℕ) → i ∈ s.handles → i ∉ (h ∷ rest) = λ i. rw e at (v.apart i) in
    let held : (i : ℕ) → (has i s.handles || has i (h ∷ rest)) ≡ (s.program.flags i).active =
      λ i. rw e at (v.held i) in
    record {
      handles =
          IsDistinct-append s.handles (h ∷ []) v.handles (refl, tt)
            (λ i k. ground (arith, apart i));
      queue = d.1;
      apart = λ i k. ground (arith, has-append i s.handles (h ∷ []), apart i, d.0);
      held = λ i. ground (arith, has-append i s.handles (h ∷ []), held i);
    }

later :
    (i : ℕ) (calls : List Call) (vs : List Visit) (h : ℕ) (rest queue : List ℕ)
    → i ∈ (h ∷ rest)
    → (stops i calls ≡ false → i ∈ rest → i ∈ queue)
    → (i ∈ queue → (has i (visited vs) || stopped i vs) ≡ true)
    → (((i == h) || has i (visited vs)) || (stops i calls || stopped i vs)) ≡ true
later i calls vs h rest queue here stay all = ground (arith, stay, all)

-- A run begins with all handles in its queue.
pub begin-IsWatchers :
    (s : Watchers)
    → IsWatchers s
    → s.queue ≡ []
    → IsWatchers (record s { handles = []; queue = s.handles })
begin-IsWatchers s v no_queue =
    let held : (i : ℕ) → (has i s.handles || has i []) ≡ (s.program.flags i).active =
      λ i. rw no_queue at (v.held i) in
    record {
      handles = tt;
      queue = v.handles;
      apart = λ i k. cc;
      held = λ i. ground (arith, held i);
    }

step-Ran :
    (s t g : Watchers) (h : ℕ) (rest : List ℕ) (calls : List Call) (vs : List Visit)
    → s.queue ≡ h ∷ rest
    → IsSublist t.queue rest
    → ((i : ℕ) → stops i calls ≡ false → i ∈ rest → i ∈ t.queue)
    → Ran t g vs
    → Ran s g (record { handle = h; calls = calls } ∷ vs)
step-Ran s t g h rest calls vs e shrinks stays r = record {
  valid = r.valid;
  empty = r.empty;
  order = rw e (keep (IsSublist-trans shrinks r.order));
  all = λ i m. later i calls vs h rest t.queue (rw e at (m)) (stays i) (r.all i);
}

module _ (script : Script) where
  pub empty_run : (fuel : ℕ) (s : Watchers) → s.queue ≡ [] → run_loop script fuel s ≡ some (s, [])
  unfolding run_loop
  empty_run zero s e = simp (run_loop, e)
  empty_run (suc fuel) s e = simp (run_loop, e)

  pub head_run :
      (fuel h : ℕ) (rest : List ℕ) (s : Watchers)
      → s.queue ≡ h ∷ rest
      → run_loop script (suc fuel) s
        ≡ visit
            (record { handle = h; calls = script h s.program })
            (run_loop script fuel (run_calls (script h s.program) (moved s h rest)))
  unfolding run_loop
  head_run fuel h rest s e = simp (run_loop, e)

  done-Ran :
      (fuel : ℕ) (s : Watchers)
      → IsWatchers s
      → s.queue ≡ []
      → (g : Watchers) × (vs : List Visit) × (run_loop script fuel s ≡ some (g, vs)) × Ran s g vs
  done-Ran fuel s v e = (
    s,
    [],
    empty_run fuel s e,
    record {
      valid = v;
      empty = e;
      order = rw e nil;
      all = λ i m. (let k : false ≡ true = rw e at (m) in cc);
    },
  )

  run_loop-Ran :
      (fuel : ℕ) (s : Watchers)
      → IsWatchers s
      → length s.queue ≤ fuel
      → (g : Watchers) × (vs : List Visit) × (run_loop script fuel s ≡ some (g, vs)) × Ran s g vs
  run_loop-Ran zero s v enough = elim (List-cases s.queue) [
    | inl e ↦ done-Ran zero s v e
    | inr (h, rest, e) ↦ absurd (omega (arith, rw e at (enough)))
  ]
  run_loop-Ran (suc fuel) s v enough = elim (List-cases s.queue) [
    | inl e ↦ done-Ran (suc fuel) s v e
    | inr (h, rest, e) ↦
        let calls = script h s.program in
        let k = run_calls-Kept calls (moved s h rest) (moved-IsWatchers s h rest v e) in
        let (g, vs, ran, r) =
          run_loop-Ran fuel (run_calls calls (moved s h rest)) k.valid
            (omega (arith, IsSublist-length k.shrinks, rw e at (enough))) in
        (
          g,
          record { handle = h; calls = calls } ∷ vs,
          head_run fuel h rest s e ∙ ap (visit (record { handle = h; calls = calls })) ran,
          step-Ran s (run_calls calls (moved s h rest)) g h rest calls vs e k.shrinks k.stays r,
        )
  ]

  -- `uv__run_idle`, `uv__run_prepare` and `uv__run_check` end, whatever the callbacks do to handles:
  -- they call handles that were in the list at the start, each once at most, in the order of the
  -- list, and every one of these that no callback stops in the meantime. A handle that is started in
  -- the meantime waits for the next run. The list is valid again.
  pub uv__run-Ran :
      (s : Watchers)
      → IsWatchers s
      → s.queue ≡ []
      → (g : Watchers) × (vs : List Visit) × (uv__run script s ≡ some (g, vs))
        × IsWatchers g
        × (g.queue ≡ [])
        × IsSublist (visited vs) s.handles
        × ((i : ℕ)
            → (s.program.flags i).active ≡ true
            → (has i (visited vs) || stopped i vs) ≡ true)
  unfolding uv__run
  uv__run-Ran s v no_queue =
      let s1 = record s { handles = []; queue = s.handles } in
      let w = begin-IsWatchers s v no_queue in
      let held : (i : ℕ) → (has i s.handles || has i []) ≡ (s.program.flags i).active =
        λ i. rw no_queue at (v.held i) in
      let (g, vs, ran, r) = run_loop-Ran (length s.handles) s1 w (omega arith) in
      (g, vs, ran, r.valid, r.empty, r.order, λ i on. r.all i (ground (arith, held i)))
