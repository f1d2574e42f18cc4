-- ===== src/Run/Close.antt =====
-- unix/core.c: the callbacks of closing handles.
use mathlib.Core.List.{append_assoc, append-nil}
use sebbu_c_libuv.Base.{
  ℕ, ◌≡◌, ◌||◌, inl, inr, refl, ◌∙◌, sym, ap, true, false, List, [], ◌∷◌, ◌++◌, ◌==◌, ==_iff, arith,
  Bool-cases,
}
use sebbu_c_libuv.Handle.{handle_unref}
use sebbu_c_libuv.Queue.Ring.{has, has-append, ◌∈◌, ◌∉◌, IsDistinct}
use sebbu_c_libuv.Run.{
  Kind, named_pipe, tty, tcp, udp, prepare, check, idle, async, timer, process, fs_event, poll,
  fs_poll, signal, Loop, Event, stream_destroy, udp_finish_close, closed, Log, set_flags, unref,
  uv__make_close_pending, occur, finish_kind, is_trapped, finish_checked, uv__finish_close,
  closing_loop, uv__run_closing_handles, assert_that, is_half_closed,
}
use sebbu_c_libuv.Run.Finish.{closes, Keeps, due, closing_loop-Finished, IsHalfClosed, Leaves}

abbrev pub reversed : List ℕ → List ℕ
reversed [] = []
reversed (i ∷ is) = reversed is ++ i ∷ []

apart : (i q : ℕ) (qs : List ℕ) → i ∈ qs → q ∉ qs → (i == q) ≡ false
apart i q qs h k = elim (Bool-cases (i == q)) [
  | inr e ↦ e
  | inl e ↦
      let is : i ≡ q = (==_iff i q).0 e in
      let k2 : i ∈ qs → q ∈ qs = λ x. rw (← is) x in absurd (let m = k2 h in cc)
]

in_left : (i : ℕ) (is qs : List ℕ) → i ∈ is → i ∈ (reversed is ++ qs)
in_left i [] qs h = absurd cc
in_left i (j ∷ is) qs h =
    let split : (has i (reversed is ++ j ∷ []) || has i qs)
        ≡ has i ((reversed is ++ j ∷ []) ++ qs) =
      sym (has-append i (reversed is ++ j ∷ []) qs) in
    let inner = has-append i (reversed is) (j ∷ []) in
    elim (Bool-cases (has i is)) [
      | inl m ↦
          let r = in_left i is [] m in
          let r2 = ap (λ x. has i x) (append-nil (reversed is)) in
          sym split ∙ ground (arith, inner, r, r2)
      | inr m ↦ sym split ∙ ground (arith, inner)
    ]

module _ (react : Event → Loop → Loop) (ps : List ℕ)
    (leaves : (i : ℕ) → (e : Event) → (s : Loop) → i ∈ ps → Leaves i s (react e s)) where
  finish_kind-left :
      (i j : ℕ) (k : Kind) (s : Loop) (log : Log)
      → i ∈ ps
      → Leaves i s ((finish_kind react j k (s, log)).0)
  unfolding finish_kind occur
  finish_kind-left i j named_pipe s log m = leaves i (stream_destroy j) s m
  finish_kind-left i j tcp s log m = leaves i (stream_destroy j) s m
  finish_kind-left i j tty s log m = leaves i (stream_destroy j) s m
  finish_kind-left i j udp s log m = leaves i (udp_finish_close j) s m
  finish_kind-left i j prepare s log m = (refl, λ h. h)
  finish_kind-left i j check s log m = (refl, λ h. h)
  finish_kind-left i j idle s log m = (refl, λ h. h)
  finish_kind-left i j async s log m = (refl, λ h. h)
  finish_kind-left i j timer s log m = (refl, λ h. h)
  finish_kind-left i j process s log m = (refl, λ h. h)
  finish_kind-left i j fs_event s log m = (refl, λ h. h)
  finish_kind-left i j fs_poll s log m = (refl, λ h. h)
  finish_kind-left i j poll s log m = (refl, λ h. h)
  finish_kind-left i j signal s log m = (refl, λ h. h)

  -- The end of one handle leaves the others and fails no assertion.
  uv__finish_close-left :
      (i p : ℕ) (s : Loop) (log : Log)
      → i ∈ ps
      → IsHalfClosed p s
      → ((i == p) ≡ false
          → is_half_closed ((uv__finish_close react p (s, log)).0.flags i)
            ≡ is_half_closed (s.flags i))
        × (s.aborted ≡ false → (uv__finish_close react p (s, log)).0.aborted ≡ false)
  unfolding uv__finish_close finish_checked uv__make_close_pending occur unref handle_unref
  uv__finish_close-left i p s log m half =
      let checked = assert_that (is_half_closed (s.flags p)) s in
      let one = set_flags p (record (s.flags p) { closed = true }) checked in
      let two = finish_kind react p (s.kind p) (one, log) in
      let three = unref p two.0 in
      let kind = finish_kind-left i p (s.kind p) one log m in
      let fine : s.aborted ≡ false → one.aborted ≡ false = λ h. rw (half, h) refl in
      let flags : (i == p) ≡ false → is_half_closed (three.flags i) ≡ is_half_closed (s.flags i) =
        λ no. rw no (kind.0 ∙ rw no refl) in
      elim (Bool-cases (is_trapped p checked)) [
        | inl trapped ↦ rw trapped (λ no. refl, λ h. rw (half, h) refl)
        | inr free ↦ elim (Bool-cases (three.close_cb p)) [
          | inl yes_ ↦
              let cb = leaves i (closed p) three m in
              rw (free, yes_) (λ no. cb.0 ∙ flags no, λ h. cb.1 (kind.1 (fine h)))
          | inr none_ ↦ rw (free, none_) (flags, λ h. kind.1 (fine h))
        ]
      ]

  closing_loop-left :
      (qs : List ℕ) (s : Loop) (log : Log)
      → ((i : ℕ) → i ∈ qs → i ∈ ps)
      → IsDistinct qs
      → ((i : ℕ) → i ∈ qs → IsHalfClosed i s)
      → s.aborted ≡ false
      → (closing_loop react qs (s, log)).0.aborted ≡ false
  unfolding closing_loop
  closing_loop-left [] s log inside distinct half fine = fine
  closing_loop-left (q ∷ qs) s log inside distinct half fine =
      let a = uv__finish_close react q (s, log) in
      let here = half q (ground arith) in
      let left =
        λ (i : ℕ) (h : i ∈ qs). uv__finish_close-left i q s log (inside i (ground arith)) here in
      closing_loop-left qs a.0 a.1 (λ i h. inside i (ground arith)) distinct.1
        (λ i h. (left i h).0 (apart i q qs h distinct.0) ∙ half i (ground arith))
        ((uv__finish_close-left q q s log (inside q (ground arith)) here).1 fine)

-- Handles are closed one after another.
abbrev pub close_all : List ℕ → Loop → Loop
close_all [] s = s
close_all (i ∷ is) s = close_all is (uv__make_close_pending i s)

-- The loop `t` is `s` with the handles closed.
record Pushed (is : List ℕ) (s t : Loop) : Type 0 where
  list : t.closing_handles ≡ reversed is ++ s.closing_handles
  flags : t.flags ≡ s.flags
  aborted : t.aborted ≡ s.aborted
  trapped : (i : ℕ) → is_trapped i t ≡ is_trapped i s
  callback : t.close_cb ≡ s.close_cb

close_all-Pushed :
    (is : List ℕ) (s : Loop) → ((i : ℕ) → i ∈ is → IsHalfClosed i s) → Pushed is s (close_all is s)
unfolding uv__make_close_pending is_trapped
close_all-Pushed [] s half = record {
  list = refl;
  flags = refl;
  aborted = refl;
  trapped = λ i. refl;
  callback = refl;
}
close_all-Pushed (j ∷ is) s half =
    let here : is_half_closed (s.flags j) ≡ true = half j (ground arith) in
    let p = close_all-Pushed is (uv__make_close_pending j s) (λ i h. half i (ground arith)) in
    record {
      list = p.list ∙ sym (append_assoc (reversed is) (j ∷ []) s.closing_handles);
      flags = p.flags;
      aborted = p.aborted ∙ rw here refl;
      trapped = p.trapped;
      callback = p.callback;
    }

due-same :
    (qs : List ℕ) (s t : Loop)
    → ((i : ℕ) → is_trapped i t ≡ is_trapped i s)
    → t.close_cb ≡ s.close_cb
    → due t qs ≡ due s qs
due-same [] s t trapped callback = refl
due-same (q ∷ qs) s t trapped callback =
    rw (trapped q, callback, due-same qs s t trapped callback) refl

-- What a callback leaves to the handles of the list.
abbrev pub Spares : List ℕ → (Event → Loop → Loop) → Type 0
Spares ps react =
    (i : ℕ) → (e : Event) → (t : Loop) → i ∈ ps → Keeps i t (react e t) × Leaves i t (react e t)

-- `uv__run_closing_handles`, after handles `is` were closed one after another, all handles that then
-- are in the list being distinct, closing and not closed: no assertion fails, and the close callbacks
-- of these handles are called, each once, the last closed first; callbacks may do what leaves those
-- handles as they are and fails no assertion. A handle without a callback is finished in silence. A
-- signal handle that still has signals to be delivered is not called but put back into the list for
-- the next time.
pub uv__run_closing_handles-closes :
    (react : Event → Loop → Loop) (is : List ℕ) (s : Loop) (log : Log)
    → Spares (reversed is ++ s.closing_handles) react
    → IsDistinct (reversed is ++ s.closing_handles)
    → ((i : ℕ) → i ∈ (reversed is ++ s.closing_handles) → IsHalfClosed i s)
    → s.aborted ≡ false
    → (closes ((uv__run_closing_handles react (close_all is s, log)).1)
        ≡ closes log ++ due s (reversed is ++ s.closing_handles))
      × ((i : ℕ)
          → i ∈ (reversed is ++ s.closing_handles)
          → is_trapped i s ≡ true
          → i ∈ (uv__run_closing_handles react (close_all is s, log)).0.closing_handles)
      × ((uv__run_closing_handles react (close_all is s, log)).0.aborted ≡ false)
unfolding uv__run_closing_handles is_trapped
uv__run_closing_handles-closes react is s log spares distinct half fine =
    let ps = reversed is ++ s.closing_handles in
    let p = close_all-Pushed is s (λ i h. half i (in_left i is s.closing_handles h)) in
    let t = record (close_all is s) { closing_handles = [] } in
    let (_, back, called) =
      closing_loop-Finished react ps (λ i e u m. (spares i e u m).0) ps t log (λ i h. h) in
    let whole =
      closing_loop-left react ps (λ i e u m. (spares i e u m).1) ps t log (λ i h. h) distinct
        (λ i h. ap (λ f. is_half_closed (f i)) p.flags ∙ half i h) (p.aborted ∙ fine) in
    rw p.list (
      called ∙ ap (λ x. closes log ++ x) (due-same ps s t p.trapped p.callback),
      λ i h k. back i h (p.trapped i ∙ k),
      whole,
    )
