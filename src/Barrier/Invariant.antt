-- ===== src/Barrier/Invariant.antt =====
-- thread-common.c: what holds in every interleaving of threads at a barrier.
use sebbu_c_libuv.Base.{
  ℕ, suc, ◌+◌, ◌-◌, ◌*◌, ◌≤◌, ◌<◌, ◌≡◌, ◌≢◌, ◌⊎◌, inl, inr, refl, ap, ◌∙◌, Bool, true, false, List,
  [], ◌∷◌, length, ◌==◌, if◌then◌else◌, arith, Bool-cases,
}
use sebbu_c_libuv.Barrier.{Barrier, blocked, joined, left, leave, enter, resume}
use sebbu_c_libuv.Barrier.Reach.{
  System, Step, enter_joined, enter_left, enter_blocked, resume_left, resume_blocked, Reaches, here,
  step, fresh,
}

-- The threads that were told to be the last.
abbrev pub lasts : List Bool → ℕ
lasts [] = 0
lasts (true ∷ bs) = suc (lasts bs)
lasts (false ∷ bs) = lasts bs

-- `rounds` times all threads of a round have arrived. While the threads of the last round leave, none
-- comes past the first wait.
pub record IsMeeting (count : ℕ) (s : System) : Type 0 where
  pub threshold : s.barrier.threshold ≡ count
  pub rounds : ℕ
  pub arrived : s.arrived ≡ count * rounds + s.barrier.in_
  pub returned : length s.results + s.barrier.out ≡ count * rounds
  pub waiting : s.waiting ≡ s.barrier.in_ + s.barrier.out
  pub one_phase : (s.barrier.in_ ≡ 0) ⊎ (s.barrier.out ≡ 0)
  pub partial : s.barrier.in_ < count
  pub leaving : s.barrier.out < count
  pub last_ones : lasts s.results + (if s.barrier.out == 0 then 0 else 1) ≡ rounds

left-injective : (a a' : Bool) (b b' : Barrier) → left a b ≡ left a' b' → (a ≡ a') × (b ≡ b')
left-injective a a' b b' h = (cc, cc)

joined-injective : (b b' : Barrier) → joined b ≡ joined b' → b ≡ b'
joined-injective b b' h = cc

lasts_cons :
    (n : ℕ) (bs : List Bool) (rounds : ℕ)
    → lasts bs ≡ rounds
    → lasts ((n == 0) ∷ bs) + (if n == 0 then 0 else 1) ≡ rounds + 1
lasts_cons n bs rounds h = elim (Bool-cases (n == 0)) [
  | inl e ↦ rw e (omega (arith, h))
  | inr e ↦ rw e (omega (arith, h))
]

lasts_later :
    (n : ℕ) (bs : List Bool) (rounds : ℕ)
    → 0 < n
    → lasts bs + (if n == 0 then 0 else 1) ≡ rounds
    → lasts ((n - 1 == 0) ∷ bs) + (if n - 1 == 0 then 0 else 1) ≡ rounds
lasts_later n bs rounds some_ h =
    let h' : lasts bs + 1 ≡ rounds = ground (arith, h) in
    elim (Bool-cases (n - 1 == 0)) [
      | inl e ↦ rw e (omega (arith, h'))
      | inr e ↦ rw e (omega (arith, h'))
    ]

module _ (count : ℕ) (s : System) (v : IsMeeting count s) where
  joined-IsMeeting :
      (b : Barrier)
      → enter s.barrier ≡ joined b
      → IsMeeting count (record s { barrier = b; waiting = s.waiting + 1; arrived = s.arrived + 1 })
  unfolding enter leave
  joined-IsMeeting b h = elim (Bool-cases (s.barrier.out == 0)) [
    | inr busy ↦ absurd (let c : blocked ≡ joined b = rw busy at (h) in cc)
    | inl free ↦ elim (Bool-cases (s.barrier.in_ + 1 == s.barrier.threshold)) [
      | inl full ↦ absurd (
          let c : leave (record (s.barrier) { in_ = 0; out = s.barrier.threshold }) ≡ joined b =
            rw (free, full) at (h) in
          cc)
      | inr more ↦
          let e : record (s.barrier) { in_ = s.barrier.in_ + 1 } ≡ b =
            joined-injective (record (s.barrier) { in_ = s.barrier.in_ + 1 }) b
              (rw (free, more) at (h)) in
          rw⁻¹ e (record {
            threshold = v.threshold;
            rounds = v.rounds;
            arrived = omega (arith, v.arrived);
            returned = v.returned;
            waiting = omega (arith, v.waiting);
            one_phase = inr (ground arith);
            partial = ground (arith, v.threshold, v.partial);
            leaving = v.leaving;
            last_ones = v.last_ones;
          })
    ]
  ]

  enter_left-IsMeeting :
      (last : Bool) (b : Barrier)
      → enter s.barrier ≡ left last b
      → IsMeeting count
          (record s { barrier = b; arrived = s.arrived + 1; results = last ∷ s.results })
  unfolding enter leave
  enter_left-IsMeeting last b h = elim (Bool-cases (s.barrier.out == 0)) [
    | inr busy ↦ absurd (let c : blocked ≡ left last b = rw busy at (h) in cc)
    | inl free ↦ elim (Bool-cases (s.barrier.in_ + 1 == s.barrier.threshold)) [
      | inr more ↦ absurd (
          let c : joined (record (s.barrier) { in_ = s.barrier.in_ + 1 }) ≡ left last b =
            rw (free, more) at (h) in
          cc)
      | inl full ↦
          let t = s.barrier.threshold in
          let b' : Barrier = record { in_ = 0; out = t - 1; threshold = t } in
          let l : Bool = t - 1 == 0 in
          let (e, f) = left-injective l last b' b (rw (free, full) at (h)) in
          let next : count * (v.rounds + 1) ≡ count * v.rounds + count = omega arith in
          rw⁻¹ (e, f)
            (record {
              threshold = v.threshold;
              rounds = v.rounds + 1;
              arrived = ground (arith, v.arrived, v.threshold, next);
              returned = ground (arith, v.returned, v.threshold, next);
              waiting = ground (arith, v.waiting);
              one_phase = inl refl;
              partial = ground (arith, v.threshold);
              leaving = ground (arith, v.threshold);
              last_ones = lasts_cons (t - 1) s.results v.rounds (ground (arith, v.last_ones));
            })
    ]
  ]

  resume_left-IsMeeting :
      (last : Bool) (b : Barrier)
      → 0 < s.waiting
      → resume s.barrier ≡ left last b
      → IsMeeting count
          (record s { barrier = b; waiting = s.waiting - 1; results = last ∷ s.results })
  unfolding resume leave
  resume_left-IsMeeting last b some_ h = elim (Bool-cases (s.barrier.in_ == 0)) [
    | inr busy ↦ absurd (let c : blocked ≡ left last b = rw busy at (h) in cc)
    | inl empty ↦
        let b' : Barrier = record (s.barrier) { out = s.barrier.out - 1 } in
        let l : Bool = s.barrier.out - 1 == 0 in
        let (e, f) = left-injective l last b' b (rw empty at (h)) in
        rw⁻¹ (e, f)
          (record {
            threshold = v.threshold;
            rounds = v.rounds;
            arrived = v.arrived;
            returned = ground (arith, v.returned, v.waiting);
            waiting = ground (arith, v.waiting);
            one_phase = inl (ground arith);
            partial = v.partial;
            leaving = ground (arith, v.leaving);
            last_ones =
                lasts_later (s.barrier.out) s.results v.rounds (ground (arith, v.waiting))
                  v.last_ones;
          })
  ]

Step-IsMeeting : (count : ℕ) {s t : System} → Step s t → IsMeeting count s → IsMeeting count t
Step-IsMeeting count (enter_joined {s} {b} h) v = joined-IsMeeting count s v b h
Step-IsMeeting count (enter_left {s} {last} {b} h) v = enter_left-IsMeeting count s v last b h
Step-IsMeeting count (enter_blocked h) v = v
Step-IsMeeting count (resume_left {s} {last} {b} w h) v = resume_left-IsMeeting count s v last b w h
Step-IsMeeting count (resume_blocked w h) v = v

fresh-IsMeeting : (count : ℕ) → 0 < count → IsMeeting count (fresh count)
fresh-IsMeeting count h = record {
  threshold = refl;
  rounds = 0;
  arrived = omega arith;
  returned = omega arith;
  waiting = omega arith;
  one_phase = inl refl;
  partial = h;
  leaving = h;
  last_ones = omega arith;
}

Reaches-IsMeeting : (count : ℕ) {s t : System} → Reaches s t → IsMeeting count s → IsMeeting count t
Reaches-IsMeeting count here v = v
Reaches-IsMeeting count (step r one) v = Step-IsMeeting count one (Reaches-IsMeeting count r v)

over_bounds :
    (count : ℕ) (s : System) (v : IsMeeting count s)
    → (v.rounds ≤ lasts s.results + 1)
      × (lasts s.results ≤ v.rounds)
      × (count * lasts s.results ≤ length s.results)
      × (length s.results < count * lasts s.results + count)
over_bounds count s v = elim (Bool-cases (s.barrier.out == 0)) [
  | inl e ↦
      let all : lasts s.results ≡ v.rounds = ground (arith, v.last_ones) in
      let out : s.barrier.out ≡ 0 = ground arith in
      rw all (
        omega arith,
        omega arith,
        omega (arith, v.returned, out),
        omega (arith, v.returned, out, v.partial),
      )
  | inr e ↦
      let one : v.rounds ≡ lasts s.results + 1 = ground (arith, v.last_ones) in
      let some_ : 0 < s.barrier.out = ground arith in
      let next : count * v.rounds ≡ count * lasts s.results + count =
        ap (λ n. count * n) one ∙ omega arith in
      (
        omega (arith, one),
        omega (arith, one),
        omega (arith, v.returned, v.leaving, next),
        omega (arith, v.returned, some_, next),
      )
]

-- In every interleaving of any number of threads at a barrier for `count` of them: the threads that
-- have come past the first wait make `rounds` full rounds and a part of one, and each of them has
-- returned or waits for the others. No thread returns before its round is full, and if the next round
-- has begun, all threads of the full ones have returned. Of the full rounds `over` are over, all but
-- the last one at least: `count` threads have returned for each of them and fewer for the next one, and
-- one for each of them, and no other, was told to be the last.
pub Reaches-rounds :
    (count : ℕ) (s : System)
    → 0 < count
    → Reaches (fresh count) s
    → (rounds : ℕ) × (count * rounds ≤ s.arrived)
      × (s.arrived < count * rounds + count)
      × (s.waiting + length s.results ≡ s.arrived)
      × (length s.results ≤ count * rounds)
      × (count * rounds < s.arrived → length s.results ≡ count * rounds)
      × (over : ℕ) × (lasts s.results ≡ over)
      × (rounds ≤ over + 1)
      × (over ≤ rounds)
      × (count * over ≤ length s.results)
      × (length s.results < count * over + count)
Reaches-rounds count s h r =
    let v = Reaches-IsMeeting count r (fresh-IsMeeting count h) in
    let b = over_bounds count s v in
    (
      v.rounds,
      omega (arith, v.arrived),
      omega (arith, v.arrived, v.partial),
      omega (arith, v.arrived, v.waiting, v.returned),
      omega (arith, v.returned),
      λ more. elim (v.one_phase) [
        | inl e ↦ absurd (omega (arith, v.arrived, e))
        | inr e ↦ omega (arith, v.returned, e)
      ],
      lasts s.results,
      refl,
      b.0,
      b.1,
      b.2,
      b.3,
    )

-- A full round can always go on: a thread that waits for the others leaves as soon as it wakes up.
pub resume-left :
    (count : ℕ) (s : System)
    → IsMeeting count s
    → s.barrier.out ≢ 0
    → (last : Bool) × (b : Barrier) × (resume s.barrier ≡ left last b)
unfolding resume leave
resume-left count s v busy =
    let empty : (s.barrier.in_ == 0) ≡ true = ground (arith, v.one_phase) in
    (s.barrier.out - 1 == 0, record (s.barrier) { out = s.barrier.out - 1 }, rw empty refl)
