-- ===== src/FdHash/Find.antt =====
-- win/fs-fd-hash-inl.h: entries behind pointers, and what the search finds.
use sebbu_c_libuv.Base.{
  ℕ, zero, suc, ◌+◌, ◌-◌, ◌*◌, ◌/◌, ◌≤◌, ◌<◌, ◌≡◌, ◌≢◌, inl, inr, refl, sym, ap, ◌∙◌, Bool, ◌&&◌,
  none, some, List, [], ◌∷◌, length, ◌==◌, ==_iff, if◌then◌else◌, arith, Bool-cases, Option-cases,
  List-cases,
}
use sebbu_c_libuv.FdHash.{
  Entry, Group, Bucket, Pointer, find_in_group, find_in_groups, first_group_size, find_in_bucket,
  entry_at, write_at,
}

abbrev pub same : Pointer → Pointer → Bool
same p q = (p.behind == q.behind) && (p.slot == q.slot)

pub length-write_at :
    (gs : List Group) (p : Pointer) (e : Entry) → length (write_at gs p e) ≡ length gs
unfolding write_at
length-write_at [] p e = refl
length-write_at (g ∷ gs) p e = elim (Bool-cases (p.behind == length gs)) [
  | inl h ↦ rw h refl
  | inr h ↦ rw h (ap suc (length-write_at gs p e))
]

pub entry_at-write_at :
    (gs : List Group) (p q : Pointer) (e : Entry)
    → p.behind < length gs
    → entry_at (write_at gs p e) q ≡ (if same q p then some e else entry_at gs q)
unfolding write_at entry_at
entry_at-write_at [] p q e h = absurd (omega arith)
entry_at-write_at (g ∷ gs) p q e h = elim (Bool-cases (p.behind == length gs)) [
  | inl here ↦ ground arith
  | inr there ↦
      rw there (ground (arith, entry_at-write_at gs p q e (ground arith), length-write_at gs p e))
]

pub entry_at-some :
    (gs : List Group) (q : Pointer) → q.behind < length gs → (e : Entry) × (entry_at gs q ≡ some e)
unfolding entry_at
entry_at-some [] q h = absurd (omega arith)
entry_at-some (g ∷ gs) q h = elim (Bool-cases (q.behind == length gs)) [
  | inl here ↦ (g q.slot, rw here refl)
  | inr there ↦ rw there (entry_at-some gs q (ground arith))
]

-- A group in front changes no entry behind.
pub entry_at-cons :
    (g : Group) (gs : List Group) (q : Pointer)
    → q.behind < length gs
    → entry_at (g ∷ gs) q ≡ entry_at gs q
unfolding entry_at
entry_at-cons g gs q h = ground arith

pub find_in_group-some :
    (fd : ℕ) (g : Group) (n i j : ℕ)
    → find_in_group fd g n i ≡ some j
    → (i ≤ j) × (j < i + n) × ((g j).fd ≡ fd)
unfolding find_in_group
find_in_group-some fd g zero i j h = absurd (cc)
find_in_group-some fd g (suc n) i j h = elim (Bool-cases ((g i).fd == fd)) [
  | inl here ↦
      let is : some i ≡ some j = rw here at (h) in
      let is' : i ≡ j = cc in
      (
        omega (arith, is'),
        omega (arith, is'),
        ap (λ k. (g k).fd) (sym is') ∙ (==_iff (g i).fd fd).0 here,
      )
  | inr there ↦
      let (a, b, c) = find_in_group-some fd g n (i + 1) j (rw there at (h)) in
      (omega (arith, a), omega (arith, b), c)
]

pub find_in_group-none :
    (fd : ℕ) (g : Group) (n i j : ℕ)
    → find_in_group fd g n i ≡ none
    → i ≤ j
    → j < i + n
    → (g j).fd ≢ fd
unfolding find_in_group
find_in_group-none fd g zero i j h le lt = absurd (omega arith)
find_in_group-none fd g (suc n) i j h le lt = elim (Bool-cases ((g i).fd == fd)) [
  | inl here ↦ absurd (let is : some i ≡ none = rw here at (h) in cc)
  | inr there ↦ elim (Bool-cases (i == j)) [
    | inl e ↦ λ k. (let is = ap (λ l. (g l).fd) ((==_iff i j).0 e) in ground arith)
    | inr e ↦ find_in_group-none fd g n (i + 1) j (rw there at (h)) (ground arith) (omega arith)
  ]
]

-- A find is a pointer to an entry in use with the descriptor.
pub record Found (fd : ℕ) (gs : List Group) (p : Pointer) : Type 0 where
  pub slot : p.slot < 16
  pub behind : p.behind < length gs
  pub entry : Entry
  pub at : entry_at gs p ≡ some entry
  pub match_ : entry.fd ≡ fd

here-Found :
    (fd : ℕ) (g : Group) (gs : List Group) (i : ℕ)
    → i < 16
    → (g i).fd ≡ fd
    → Found fd (g ∷ gs) (record { behind = length gs; slot = i })
unfolding entry_at
here-Found fd g gs i lt is = record {
  slot = lt;
  behind = omega arith;
  entry = g i;
  at = ground arith;
  match_ = is;
}

cons-Found :
    (fd : ℕ) (g : Group) (gs : List Group) (p : Pointer) → Found fd gs p → Found fd (g ∷ gs) p
cons-Found fd g gs p f = record {
  slot = f.slot;
  behind = omega (arith, f.behind);
  entry = f.entry;
  at = entry_at-cons g gs p f.behind ∙ f.at;
  match_ = f.match_;
}

some-injective : (p q : Pointer) → some p ≡ some q → p ≡ q
some-injective p q h = cc

-- A slot of the group in front of some.
abbrev before : List Group → ℕ → Pointer
before gs i = record { behind = length gs; slot = i }

find_in_groups-some :
    (fd : ℕ) (gs : List Group) (p : Pointer) → find_in_groups fd gs ≡ some p → Found fd gs p
unfolding find_in_groups
find_in_groups-some fd [] p h = absurd cc
find_in_groups-some fd (g ∷ gs) p h = elim (Option-cases (find_in_group fd g 16 0)) [
  | inl out ↦ cons-Found fd g gs p (find_in_groups-some fd gs p (rw (find_in_groups, out) at (h)))
  | inr (i, e) ↦
      let (le, lt, is) = find_in_group-some fd g 16 0 i e in
      let q : before gs i ≡ p = some-injective (before gs i) p (rw (find_in_groups, e) at (h)) in
      rw⁻¹ q (here-Found fd g gs i lt is)
]

find_in_groups-none :
    (fd : ℕ) (gs : List Group) (q : Pointer) (e : Entry)
    → find_in_groups fd gs ≡ none
    → q.slot < 16
    → entry_at gs q ≡ some e
    → e.fd ≢ fd
unfolding find_in_groups entry_at
find_in_groups-none fd [] q e h lt at = absurd cc
find_in_groups-none fd (g ∷ gs) q e h lt at = elim (Option-cases (find_in_group fd g 16 0)) [
  | inr (i, f) ↦ absurd (let k : some (before gs i) ≡ none = rw (find_in_groups, f) at (h) in cc)
  | inl out ↦ elim (Bool-cases (q.behind == length gs)) [
    | inl here ↦
        let is : some (g q.slot) ≡ some e = rw here at (at) in
        let is' : g q.slot ≡ e = cc in
        λ k. find_in_group-none fd g 16 0 q.slot out (omega arith) lt (ap (λ x. x.fd) is' ∙ k)
    | inr there ↦
        find_in_groups-none fd gs q e (rw (find_in_groups, out) at (h)) lt (rw there at (at))
  ]
]

-- The pointers to the entries in use: all slots of the groups behind the first, and the first slots
-- of the first one.
abbrev pub InUse : Bucket → Pointer → Type 0
InUse b p = (p.slot < 16) × (16 * p.behind + p.slot < b.size)

-- All groups but the first one are full, and that has an entry unless it is the only one.
abbrev pub Packed : Bucket → Type 0
Packed b = length b.data_ ≡ suc ((b.size - 1) / 16)

pub InUse-behind : (b : Bucket) (p : Pointer) → Packed b → InUse b p → p.behind < length b.data_
InUse-behind b p packed u = omega (arith, u.0, u.1)

first_group_size-InUse :
    (size k i : ℕ)
    → suc k ≡ suc ((size - 1) / 16)
    → i < first_group_size size
    → (i < 16) × (16 * k + i < size)
first_group_size-InUse size k i packed h = ground arith

InUse-first_group_size :
    (size k i : ℕ)
    → suc k ≡ suc ((size - 1) / 16)
    → i < 16
    → 16 * k + i < size
    → i < first_group_size size
InUse-first_group_size size k i packed h u = ground arith

pub find_in_bucket-some :
    (fd : ℕ) (b : Bucket) (p : Pointer)
    → Packed b
    → find_in_bucket fd b ≡ some p
    → Found fd b.data_ p × InUse b p
unfolding find_in_bucket
find_in_bucket-some fd b p packed h = elim (List-cases b.data_) [
  | inl none_ ↦
      absurd (let k : 0 ≡ suc ((b.size - 1) / 16) = rw none_ at (packed) in omega (arith, k))
  | inr (g, gs, e) ↦
      let k : suc (length gs) ≡ suc ((b.size - 1) / 16) = rw e at (packed) in
      elim (Option-cases (find_in_group fd g (first_group_size b.size) 0)) [
        | inl out ↦
            let f = find_in_groups-some fd gs p (rw (find_in_bucket, e, out) at (h)) in
            (rw e (cons-Found fd g gs p f), (f.slot, omega (arith, k, f.slot, f.behind)))
        | inr (i, at) ↦
            let (le, lt, is) = find_in_group-some fd g (first_group_size b.size) 0 i at in
            let u = first_group_size-InUse b.size (length gs) i k (omega (arith, lt)) in
            let q : before gs i ≡ p =
              some-injective (before gs i) p (rw (find_in_bucket, e, at) at (h)) in
            rw⁻¹ q (rw e (here-Found fd g gs i u.0 is), u)
      ]
]

pub find_in_bucket-none :
    (fd : ℕ) (b : Bucket) (q : Pointer) (e : Entry)
    → Packed b
    → find_in_bucket fd b ≡ none
    → InUse b q
    → entry_at b.data_ q ≡ some e
    → e.fd ≢ fd
unfolding find_in_bucket entry_at
find_in_bucket-none fd b q e packed h u at = elim (List-cases b.data_) [
  | inl none_ ↦
      absurd (let k : 0 ≡ suc ((b.size - 1) / 16) = rw none_ at (packed) in omega (arith, k))
  | inr (g, gs, is) ↦
      let k : suc (length gs) ≡ suc ((b.size - 1) / 16) = rw is at (packed) in
      let at' : entry_at (g ∷ gs) q ≡ some e = rw is at (at) in
      elim (Option-cases (find_in_group fd g (first_group_size b.size) 0)) [
        | inr (i, f) ↦
            absurd (let c : some (before gs i) ≡ none = rw (find_in_bucket, is, f) at (h) in cc)
        | inl out ↦ elim (Bool-cases (q.behind == length gs)) [
          | inl here ↦
              let eq : some (g q.slot) ≡ some e = rw here at (at') in
              let eq' : g q.slot ≡ e = cc in
              λ c.
                find_in_group-none fd g (first_group_size b.size) 0 q.slot out (omega arith)
                  (omega
                    (arith, InUse-first_group_size b.size (length gs) q.slot k u.0 (ground arith)))
                  (ap (λ x. x.fd) eq' ∙ c)
          | inr there ↦
              find_in_groups-none fd gs q e (rw (find_in_bucket, is, out) at (h)) u.0
                (rw there at (at'))
        ]
      ]
]
