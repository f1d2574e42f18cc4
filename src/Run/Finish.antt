-- ===== src/Run/Finish.antt =====
-- unix/core.c: what uv__finish_close calls and leaves.
use mathlib.Core.List.{append_assoc, append-nil}
use sebbu_c_libuv.Base.{
  ℕ, ◌≡◌, inl, inr, refl, ◌∙◌, sym, ap, true, false, not, ◌&&◌, List, [], ◌∷◌, ◌++◌, ◌==◌, ==_iff,
  if◌then◌else◌, arith, Bool-cases,
}
use sebbu_c_libuv.Queue.Ring.{◌∈◌}
use sebbu_c_libuv.Run.{
  Kind, named_pipe, tty, tcp, udp, prepare, check, idle, async, timer, process, fs_event, poll,
  fs_poll, signal, Loop, Event, stream_destroy, udp_finish_close, closed, Log, State, set_flags,
  unref, uv__make_close_pending, occur, finish_kind, is_trapped, finish_checked, uv__finish_close,
  closing_loop, assert_that, is_half_closed,
}

abbrev pub close_of : Event → List ℕ
close_of (closed i) = i ∷ []
close_of e = []

-- The close callbacks of a log, in order.
abbrev pub closes : Log → List ℕ
closes [] = []
closes (e ∷ es) = close_of e.event ++ closes es

closes-append : (xs ys : Log) → closes (xs ++ ys) ≡ closes xs ++ closes ys
closes-append [] ys = refl
closes-append (x ∷ xs) ys =
    ap (λ z. close_of x.event ++ z) (closes-append xs ys)
    ∙ sym (append_assoc (close_of x.event) (closes xs) (closes ys))

-- What a step leaves to a handle that is closing: its kind and counts, as far as they matter, its
-- callback, and its place in the list if it is there.
pub record Keeps (i : ℕ) (s g : Loop) : Type 0 where
  pub trapped : is_trapped i g ≡ is_trapped i s
  pub callback : g.close_cb i ≡ s.close_cb i
  pub listed : i ∈ s.closing_handles → i ∈ g.closing_handles

keep_same : (i : ℕ) (s : Loop) → Keeps i s s
keep_same i s = record { trapped = refl; callback = refl; listed = λ h. h }

Keeps-trans : (i : ℕ) (s t g : Loop) → Keeps i s t → Keeps i t g → Keeps i s g
Keeps-trans i s t g p q = record {
  trapped = q.trapped ∙ p.trapped;
  callback = q.callback ∙ p.callback;
  listed = λ h. q.listed (p.listed h);
}

-- The handles whose callback is due, and those that go back into the list.
abbrev pub due : Loop → List ℕ → List ℕ
due s [] = []
due s (p ∷ ps) = if not (is_trapped p s) && s.close_cb p then p ∷ due s ps else due s ps

keep_flags : (i j : ℕ) (s : Loop) (g : Loop) → g ≡ unref j s → Keeps i s g
unfolding unref is_trapped
keep_flags i j s g e = rw e (record { trapped = refl; callback = refl; listed = λ h. h })

-- A handle that `uv__make_close_pending` and `uv__finish_close` accept.
abbrev pub IsHalfClosed : ℕ → Loop → Type 0
IsHalfClosed i s = is_half_closed (s.flags i) ≡ true

-- A step that leaves the flags of a handle's closing alone and fails no assertion.
abbrev pub Leaves : ℕ → Loop → Loop → Type 0
Leaves i s g =
    (is_half_closed (g.flags i) ≡ is_half_closed (s.flags i))
    × (s.aborted ≡ false → g.aborted ≡ false)

module _ (react : Event → Loop → Loop) (ps : List ℕ)
    (keeps : (i : ℕ) → (e : Event) → (s : Loop) → i ∈ ps → Keeps i s (react e s)) where
  finish_kind-Keeps :
      (i j : ℕ) (k : Kind) (s : Loop) (log : Log)
      → i ∈ ps
      → Keeps i s ((finish_kind react j k (s, log)).0)
        × (closes ((finish_kind react j k (s, log)).1) ≡ closes log)
  unfolding finish_kind occur
  finish_kind-Keeps i j named_pipe s log m = (
    keeps i (stream_destroy j) s m,
    closes-append log (record { event = stream_destroy j; state = s } ∷ [])
        ∙ append-nil (closes log),
  )
  finish_kind-Keeps i j tcp s log m = (
    keeps i (stream_destroy j) s m,
    closes-append log (record { event = stream_destroy j; state = s } ∷ [])
        ∙ append-nil (closes log),
  )
  finish_kind-Keeps i j tty s log m = (
    keeps i (stream_destroy j) s m,
    closes-append log (record { event = stream_destroy j; state = s } ∷ [])
        ∙ append-nil (closes log),
  )
  finish_kind-Keeps i j udp s log m = (
    keeps i (udp_finish_close j) s m,
    closes-append log (record { event = udp_finish_close j; state = s } ∷ [])
        ∙ append-nil (closes log),
  )
  finish_kind-Keeps i j prepare s log m = (keep_same i s, refl)
  finish_kind-Keeps i j check s log m = (keep_same i s, refl)
  finish_kind-Keeps i j idle s log m = (keep_same i s, refl)
  finish_kind-Keeps i j async s log m = (keep_same i s, refl)
  finish_kind-Keeps i j timer s log m = (keep_same i s, refl)
  finish_kind-Keeps i j process s log m = (keep_same i s, refl)
  finish_kind-Keeps i j fs_event s log m = (keep_same i s, refl)
  finish_kind-Keeps i j fs_poll s log m = (keep_same i s, refl)
  finish_kind-Keeps i j poll s log m = (keep_same i s, refl)
  finish_kind-Keeps i j signal s log m = (keep_same i s, refl)

  -- One handle: the others keep theirs; its own callback is called if it is due.
  record Finished (p : ℕ) (s : Loop) (log : Log) (g : State) : Type 0 where
    pub others : (i : ℕ) → i ∈ ps → Keeps i s g.0
    pub back : is_trapped p s ≡ true → p ∈ g.0.closing_handles
    pub called : closes g.1 ≡ closes log ++ due s (p ∷ [])

  finish_checked-Finished :
      (p : ℕ) (s : Loop) (log : Log) → p ∈ ps → Finished p s log (finish_checked react p (s, log))
  unfolding finish_checked uv__make_close_pending is_trapped occur
  finish_checked-Finished p s log m =
      let one = set_flags p (record (s.flags p) { closed = true }) s in
      let two = finish_kind react p (s.kind p) (one, log) in
      let three = unref p two.0 in
      let keep_one : (i : ℕ) → Keeps i s one =
        λ i. record { trapped = refl; callback = refl; listed = λ h. h } in
      let keep_three : (i : ℕ) → i ∈ ps → Keeps i s three = λ i h.
        Keeps-trans i s one three (keep_one i) (
          Keeps-trans i one two.0 three ((finish_kind-Keeps i p (s.kind p) one log h).0)
            (keep_flags i p two.0 three refl)) in
      let log_two : closes two.1 ≡ closes log = (finish_kind-Keeps p p (s.kind p) one log m).1 in
      elim (Bool-cases (is_trapped p s)) [
        | inl trapped ↦ rw trapped (record {
          others = λ i h. record { trapped = refl; callback = refl; listed = λ k. ground arith };
          back = λ h. ground arith;
          called = rw trapped (sym (append-nil (closes log)));
        })
        | inr free ↦ elim (Bool-cases (three.close_cb p)) [
          | inl yes_ ↦
              let cb : s.close_cb p ≡ true = sym ((keep_three p m).callback) ∙ yes_ in
              rw (free, yes_)
                (record {
                  others = λ i h.
                      Keeps-trans i s three (react (closed p) three) (keep_three i h)
                        (keeps i (closed p) three h);
                  back = λ h. absurd cc;
                  called =
                      closes-append two.1 (record { event = closed p; state = three } ∷ [])
                      ∙ rw (free, cb) (ap (λ x. x ++ p ∷ []) log_two);
                })
          | inr none_ ↦
              let cb : s.close_cb p ≡ false = sym ((keep_three p m).callback) ∙ none_ in
              rw (free, none_)
                (record {
                  others = keep_three;
                  back = λ h. absurd cc;
                  called = rw (free, cb) (log_two ∙ sym (append-nil (closes log)));
                })
        ]
      ]

  uv__finish_close-Finished :
      (p : ℕ) (s : Loop) (log : Log) → p ∈ ps → Finished p s log (uv__finish_close react p (s, log))
  unfolding uv__finish_close is_trapped
  uv__finish_close-Finished p s log m =
      let checked = assert_that (is_half_closed (s.flags p)) s in
      let f = finish_checked-Finished p checked log m in
      record {
        others = λ i h.
            let k = f.others i h in
            record { trapped = k.trapped; callback = k.callback; listed = k.listed };
        back = f.back;
        called = f.called;
      }

  due-Keeps :
      (qs : List ℕ) (s g : Loop)
      → ((i : ℕ) → i ∈ qs → i ∈ ps)
      → ((i : ℕ) → i ∈ ps → Keeps i s g)
      → due g qs ≡ due s qs
  due-Keeps [] s g inside k = refl
  due-Keeps (q ∷ qs) s g inside k =
      let here = k q (inside q (ground arith)) in
      rw (here.trapped, here.callback, due-Keeps qs s g (λ i h. inside i (ground arith)) k) refl

  due-cons : (q : ℕ) (qs : List ℕ) (s : Loop) → due s (q ∷ []) ++ due s qs ≡ due s (q ∷ qs)
  due-cons q qs s = elim (Bool-cases (not (is_trapped q s) && s.close_cb q)) [
    | inl e ↦ rw e refl
    | inr e ↦ rw e refl
  ]

  pub closing_loop-Finished :
      (qs : List ℕ) (s : Loop) (log : Log)
      → ((i : ℕ) → i ∈ qs → i ∈ ps)
      → ((i : ℕ) → i ∈ ps → Keeps i s ((closing_loop react qs (s, log)).0))
        × ((i : ℕ)
            → i ∈ qs
            → is_trapped i s ≡ true
            → i ∈ (closing_loop react qs (s, log)).0.closing_handles)
        × (closes ((closing_loop react qs (s, log)).1) ≡ closes log ++ due s qs)
  unfolding closing_loop
  closing_loop-Finished [] s log inside =
      (λ i h. keep_same i s, λ i h. cc, sym (append-nil (closes log)))
  closing_loop-Finished (q ∷ qs) s log inside =
      let f = uv__finish_close-Finished q s log (inside q (ground arith)) in
      let a = uv__finish_close react q (s, log) in
      let (others, back, called) =
        closing_loop-Finished qs a.0 a.1 (λ i h. inside i (ground arith)) in
      (
        λ i h. Keeps-trans i s a.0 ((closing_loop react qs a).0) (f.others i h) (others i h),
        λ i h t. elim (Bool-cases (i == q)) [
          | inl e ↦
              let is : i ≡ q = (==_iff i q).0 e in
              let b : i ∈ a.0.closing_handles =
                rw is (f.back (ap (λ x. is_trapped x s) (sym is) ∙ t)) in
              (others i (inside i h)).listed b
          | inr e ↦ back i (ground arith) ((f.others i (inside i h)).trapped ∙ t)
        ],
        called
            ∙ ap (λ x. x ++ due a.0 qs) f.called
            ∙ append_assoc (closes log) (due s (q ∷ [])) (due a.0 qs)
            ∙ ap (λ x. closes log ++ (due s (q ∷ []) ++ x))
                (due-Keeps qs s a.0 (λ i h. inside i (ground arith)) f.others)
            ∙ ap (λ x. closes log ++ x) (due-cons q qs s),
      )
