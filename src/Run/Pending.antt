-- ===== src/Run/Pending.antt =====
-- unix/core.c: uv__run_pending.
use mathlib.Core.Path.{subst}
use mathlib.Core.List.{append_assoc, append-nil}
use sebbu_c_libuv.Base.{
  Bool-cases, ◌==◌, Bool, true, false, not, ◌&&◌, ◌||◌, ℕ, zero, suc, ◌≤◌, ◌≡◌, refl, ◌∙◌, sym, ap,
  List, [], ◌∷◌, ◌++◌, length, arith, List-cases, inl, inr,
}
use sebbu_c_libuv.Queue.Ring.{◌∈◌, ◌∉◌, has, IsDistinct}
use sebbu_c_libuv.Base.Sublist.{IsSublist, nil, skip, keep, IsSublist-trans, IsSublist-length}
use sebbu_c_libuv.Run.{
  Loop, Event, pending_cb, Entry, Log, State, occur, pending_loop, uv__run_pending,
}

-- The watchers that a log has called as pending, in order.
abbrev pub pending_of : Event → List ℕ
pending_of (pending_cb w) = w ∷ []
pending_of e = []

abbrev pub pendings : Log → List ℕ
pendings [] = []
pendings (e ∷ es) = pending_of e.event ++ pendings es

pendings-append : (xs ys : Log) → pendings (xs ++ ys) ≡ pendings xs ++ pendings ys
pendings-append [] ys = refl
pendings-append (x ∷ xs) ys =
    ap (λ z. pending_of x.event ++ z) (pendings-append xs ys)
    ∙ sym (append_assoc (pending_of x.event) (pendings xs) (pendings ys))

-- Callbacks may take watchers out of the local queue, by closing them.
abbrev pub Withdraws : (Event → Loop → Loop) → Type 0
Withdraws react = (e : Event) (s : Loop) → IsSublist (react e s).running s.running

-- Whether an event of a log took the watcher `i` out of the local queue.
abbrev pub is_withdrawn : (Event → Loop → Loop) → ℕ → Log → Bool
is_withdrawn react i [] = false
is_withdrawn react i (e ∷ es) =
    (has i e.state.running && not (has i ((react e.event e.state).running)))
    || is_withdrawn react i es

-- Ended, after the log `log`, with an empty local queue. Of the watchers of `queue` those in `called`
-- were called, each once and in order; the others were taken out of the local queue by a callback.
pub record Drained (react : Event → Loop → Loop) (queue : List ℕ) (log : Log) (g : State)
    : Type 0 where
  pub empty : g.0.running ≡ []
  pub new : Log
  pub logged : g.1 ≡ log ++ new
  pub called : List ℕ
  pub calls : pendings new ≡ called
  pub distinct : IsDistinct called
  pub sublist : IsSublist called queue
  pub served : (i : ℕ) → i ∈ queue → (has i called || is_withdrawn react i new) ≡ true

IsSublist-out : (a : ℕ) {xs ys : List ℕ} → IsSublist xs ys → a ∉ ys → a ∉ xs
IsSublist-out a nil h = refl
IsSublist-out a (skip p) h = IsSublist-out a p (ground arith)
IsSublist-out a (keep p) h = let rest = IsSublist-out a p (ground arith) in ground arith

IsSublist-IsDistinct : {xs ys : List ℕ} → IsSublist xs ys → IsDistinct ys → IsDistinct xs
IsSublist-IsDistinct nil d = tt
IsSublist-IsDistinct (skip p) d = IsSublist-IsDistinct p d.1
IsSublist-IsDistinct (keep {x} p) d = (IsSublist-out x p d.0, IsSublist-IsDistinct p d.1)

none_left :
    {react : Event → Loop → Loop} (s : Loop) (log : Log)
    → s.running ≡ []
    → Drained react s.running log (s, log)
none_left s log e = record {
  empty = e;
  new = [];
  logged = sym (append-nil log);
  called = [];
  calls = refl;
  distinct = tt;
  sublist = rw e nil;
  served = λ i m. let k : i ∉ s.running = rw e refl in absurd cc;
}

module _ (react : Event → Loop → Loop) (withdraws : Withdraws react) where
  pending_empty :
      (fuel : ℕ) (s : Loop) (log : Log)
      → s.running ≡ []
      → pending_loop react (suc fuel) (s, log) ≡ (s, log)
  unfolding pending_loop
  pending_empty fuel s log e = simp (pending_loop, e)

  pending_loop-Drained :
      (fuel : ℕ) (s : Loop) (log : Log)
      → length s.running ≤ fuel
      → IsDistinct s.running
      → Drained react s.running log (pending_loop react fuel (s, log))
  unfolding pending_loop occur
  pending_loop-Drained zero s log le distinct = elim (List-cases s.running) [
    | inl e ↦ none_left s log e
    | inr (w, rest, e) ↦ absurd (omega (arith, rw e at (le)))
  ]
  pending_loop-Drained (suc fuel) s log le distinct = elim (List-cases s.running) [
    | inl e ↦
        subst (λ g. Drained react s.running log g) (sym (pending_empty fuel s log e))
          (none_left s log e)
    | inr (w, rest, e) ↦
        let s1 = record s { running = rest } in
        let entry : Entry = record { event = pending_cb w; state = s1 } in
        let d : IsDistinct (w ∷ rest) = rw e at (distinct) in
        let sub = withdraws (pending_cb w) s1 in
        let r =
          pending_loop-Drained fuel (react (pending_cb w) s1) (log ++ entry ∷ [])
            (omega (arith, IsSublist-length sub, rw e at (le))) (IsSublist-IsDistinct sub d.1) in
        rw e (record {
          empty = r.empty;
          new = entry ∷ r.new;
          logged = r.logged ∙ append_assoc log (entry ∷ []) r.new;
          called = w ∷ r.called;
          calls = ap (◌∷◌ w) r.calls;
          distinct = (IsSublist-out w r.sublist (IsSublist-out w sub d.0), r.distinct);
          sublist = keep (IsSublist-trans sub r.sublist);
          served = λ i m.
              let s2 = react (pending_cb w) s1 in
              let later = r.served i in
              let here : (i == w) ≡ false → i ∈ rest = λ h. ground arith in
              elim (Bool-cases (i == w)) [
                | inl h ↦ rw h refl
                | inr h ↦ elim (Bool-cases (has i s2.running)) [
                  | inl k ↦ let l = later k in rw h (ground arith)
                  | inr k ↦ let l = here h in rw (h, l, k) (ground arith)
                ]
              ];
        })
  ]

-- `uv__run_pending`, if no watcher is pending twice and callbacks only take watchers out of the local
-- queue, ends with that queue empty. Of the watchers that were pending when it began it calls each
-- once and in order, but those that a callback took out before their turn; what becomes pending
-- meanwhile waits for the next time.
pub uv__run_pending-pendings :
    (react : Event → Loop → Loop) (s : Loop) (log : Log)
    → Withdraws react
    → IsDistinct s.pending_queue
    → (g : State) × (uv__run_pending react (s, log) ≡ g) × Drained react s.pending_queue log g
unfolding uv__run_pending
uv__run_pending-pendings react s log withdraws distinct = (
  uv__run_pending react (s, log),
  refl,
  pending_loop-Drained react withdraws (length s.pending_queue)
      (record s { pending_queue = []; running = s.pending_queue }) log (omega arith) distinct,
)
