-- ===== src/Io/Entry.antt =====
-- unix/core.c: changes of one entry of the table of watchers.
use sebbu_c_libuv.Base.{
  ℕ, ◌+◌, ◌-◌, ◌<◌, ◌≡◌, refl, sym, ap, ◌∙◌, true, false, some, List, [], ◌∷◌, ◌==◌, ==_iff, arith,
  Bool-cases, inl, inr,
}
use sebbu_c_libuv.Queue.Ring.{has, ◌∈◌, ◌∉◌, IsDistinct, has-append}
use sebbu_c_libuv.Timer.{unlink}
use sebbu_c_libuv.Io.{
  Events, any, both, enqueue, Io, Slot, null, watcher, fake, Table, put, is_null, holds,
}
use sebbu_c_libuv.Io.Valid.{IsTable, count-put}

-- A watcher whose events change and that still waits for some.
pub ios-IsTable :
    (i : ℕ) (w : Io) (t : Table)
    → IsTable t
    → w.fd ≡ (t.ios i).fd
    → any w.pevents ≡ true
    → IsTable (record t { ios = put t.ios i w })
ios-IsTable i w t v same_fd some_ = record {
  counted = v.counted;
  owner = λ fd j h k. elim (Bool-cases (j == i)) [
    | inr ne ↦ rw ne (v.owner fd j h k)
    | inl is ↦
        let e : j ≡ i = (==_iff j i).0 is in
        rw is (same_fd ∙ ap (λ x. (t.ios x).fd) (sym e) ∙ (v.owner fd j h k).0, some_)
  ];
  empty = v.empty;
}

-- A NULL entry that becomes a watcher's.
pub fill-IsTable :
    (i fd : ℕ) (t : Table)
    → IsTable t
    → fd < t.nwatchers
    → is_null (t.watchers fd) ≡ true
    → (t.ios i).fd ≡ some fd
    → any (t.ios i).pevents ≡ true
    → IsTable (record t { watchers = put t.watchers fd (watcher i); nfds = t.nfds + 1 })
fill-IsTable i fd t v low free own some_ = record {
  counted = omega (
    arith,
    v.counted,
    (let e = count-put t.nwatchers fd t.watchers (watcher i) low in simp free at e),
  );
  owner = λ fd' j h k. elim (Bool-cases (fd' == fd)) [
    | inr ne ↦ v.owner fd' j h (rw ne at (k))
    | inl is ↦
        let e : fd' ≡ fd = (==_iff fd' fd).0 is in
        let k' : holds j (watcher i) ≡ true = rw is at (k) in
        let f : i ≡ j = (==_iff i j).0 k' in
        (
          ap (λ x. (t.ios x).fd) (sym f) ∙ own ∙ ap some (sym e),
          ap (λ x. any (t.ios x).pevents) (sym f) ∙ some_,
        )
  ];
  empty = v.empty;
}

pub any-both : (p e : Events) → any e ≡ true → any (both p e) ≡ true
any-both p e h = ground arith

pub enqueue-has : (i : ℕ) (q : List ℕ) → i ∈ enqueue i q
enqueue-has i q = elim (Bool-cases (has i q)) [
  | inl y ↦ rw y y
  | inr z ↦ rw z (ground (arith, has-append i q (i ∷ [])))
]

-- A watcher that waits for nothing and has no entry may change.
pub idle-IsTable :
    (i : ℕ) (w : Io) (t : Table)
    → IsTable t
    → ((fd : ℕ) → fd < t.nwatchers → holds i (t.watchers fd) ≡ false)
    → IsTable (record t { ios = put t.ios i w })
idle-IsTable i w t v none_ = record {
  counted = v.counted;
  owner = λ fd j h k. elim (Bool-cases (j == i)) [
    | inr ne ↦ rw ne (v.owner fd j h k)
    | inl is ↦
        let c = ap (λ x. holds x (t.watchers fd)) (sym ((==_iff j i).0 is)) ∙ k in
        let d = none_ fd h in absurd cc
  ];
  empty = v.empty;
}

-- An entry that becomes NULL.
pub clear-IsTable :
    (fd : ℕ) (t : Table)
    → IsTable t
    → fd < t.nwatchers
    → is_null (t.watchers fd) ≡ false
    → IsTable (record t { watchers = put t.watchers fd null; nfds = t.nfds - 1 })
clear-IsTable fd t v low full = record {
  counted =
      omega (
        arith,
        v.counted,
        (let e = count-put t.nwatchers fd t.watchers null low in simp full at e),
      );
  owner = λ fd' j h k. elim (Bool-cases (fd' == fd)) [
    | inr ne ↦ v.owner fd' j h (rw ne at (k))
    | inl is ↦ (let k' : holds j null ≡ true = rw is at (k) in absurd cc)
  ];
  empty = v.empty;
}

pub holds-full : (i : ℕ) (s : Slot) → holds i s ≡ true → is_null s ≡ false
holds-full i null h = cc
holds-full i (watcher j) h = refl
holds-full i (fake n) h = refl

-- An entry stands for the descriptor of its watcher.
pub elsewhere :
    (i fd fd' : ℕ) (t : Table)
    → IsTable t
    → (t.ios i).fd ≡ some fd
    → fd' < t.nwatchers
    → (fd' == fd) ≡ false
    → holds i (t.watchers fd') ≡ false
elsewhere i fd fd' t v own low ne = elim (Bool-cases (holds i (t.watchers fd'))) [
  | inr d ↦ d
  | inl d ↦
      let c : some fd' ≡ some fd = sym ((v.owner fd' i low d).0) ∙ own in
      let e : fd' ≡ fd = cc in absurd (ground arith)
]

pub unlink-out : (i : ℕ) (q : List ℕ) → IsDistinct q → i ∉ unlink i q
unfolding unlink
unlink-out i [] d = refl
unlink-out i (j ∷ js) d = elim (Bool-cases (j == i)) [
  | inl e ↦ let is : j ≡ i = (==_iff j i).0 e in rw e (rw (← is) d.0)
  | inr e ↦ let rest = unlink-out i js d.1 in rw e (ground arith)
]

-- An entry of a valid table is counted.
pub counted_entry :
    (i fd : ℕ) (t : Table)
    → IsTable t
    → fd < t.nwatchers
    → holds i (t.watchers fd) ≡ true
    → (t.nfds == 0) ≡ false
counted_entry i fd t v low mine =
    let full = holds-full i (t.watchers fd) mine in
    let e = count-put t.nwatchers fd t.watchers null low in
    let f = simp full at e in let p : 0 < t.nfds = omega (arith, v.counted, f) in ground (arith, p)
