-- ===== src/FdHash/Remove.antt =====
-- win/fs-fd-hash-inl.h: what uv__fd_hash_remove does to a bucket.
use sebbu_c_libuv.Base.{
  ℕ, suc, ◌+◌, ◌-◌, ◌*◌, ◌%◌, ◌/◌, ◌<◌, ◌≡◌, ◌≢◌, ◌⊎◌, inl, inr, refl, sym, ap, ◌∙◌, true, false,
  not, ◌&&◌, none, some, List, [], ◌∷◌, length, ◌==◌, if◌then◌else◌, arith, Bool-cases,
}
use sebbu_c_libuv.FdHash.{
  Entry, Group, Bucket, Pointer, put, entry_at, write_at, remove_entry, rest_of,
}
use sebbu_c_libuv.FdHash.Find.{
  same, length-write_at, entry_at-write_at, entry_at-some, entry_at-cons, InUse, Packed,
  InUse-behind,
}
use sebbu_c_libuv.FdHash.Laws.{Map, IsBucket, same-eq, same_refl, some-entry, put-other}

-- A bucket `b'` that has the entries of `b` but that of `fd`, which was at `p`; the entry at `l`
-- takes its place.
module _ (c fd : ℕ) (b b' : Bucket) (m : Map) (v : IsBucket c b m) (p l : Pointer)
    (old moved : Entry) (packed : Packed b') (used : InUse b p)
    (at_p : entry_at b.data_ p ≡ some old) (is : old.fd ≡ fd) (used_l : InUse b l)
    (at_l : entry_at b.data_ l ≡ some moved)
    (forward : (q : Pointer)
      → InUse b' q
      → InUse b q
        × (same q l ≡ false)
        × (entry_at b'.data_ q ≡ (if same q p then some moved else entry_at b.data_ q)))
    (back : (q : Pointer) → InUse b q → same q l ≡ false → InUse b' q) where
  -- Where the entry at a pointer came from.
  source :
      (q : Pointer) (e : Entry)
      → InUse b' q
      → entry_at b'.data_ q ≡ some e
      → (r : Pointer) × InUse b r
        × (entry_at b.data_ r ≡ some e)
        × (same r p ≡ false)
        × (((same q p ≡ true) × (r ≡ l)) ⊎ ((same q p ≡ false) × (r ≡ q)))
  source q e u at =
      let (w, not_last, read) = forward q u in
      elim (Bool-cases (same q p)) [
        | inl h ↦
            let e_is : e ≡ moved = some-entry e moved (sym at ∙ read ∙ rw h refl) in
            let apart : same l p ≡ false = elim (Bool-cases (same l p)) [
              | inr d ↦ d
              | inl d ↦ absurd (ground arith)
            ] in
            (l, used_l, at_l ∙ ap some (sym e_is), apart, inl (h, refl))
        | inr h ↦
            let read' : entry_at b'.data_ q ≡ entry_at b.data_ q = read ∙ rw h refl in
            (q, w, sym read' ∙ at, h, inr (h, refl))
      ]

  not_fd :
      (r : Pointer) (e : Entry)
      → InUse b r
      → entry_at b.data_ r ≡ some e
      → same r p ≡ false
      → e.fd ≢ fd
  not_fd r e u at apart k = (let t = v.distinct r p e old u used at at_p (k ∙ sym is) in absurd cc)

  pub unset-IsBucket : IsBucket c b' (put m fd none)
  unset-IsBucket = record {
    packed = packed;
    home = λ q e u at.
        (let (r, w, at', apart, _) = source q e u at in
          let (home, has) = v.home r e w at' in
          (home, put-other m fd e.fd none (not_fd r e w at' apart) ∙ has));
    here = λ fd' info h k. elim (Bool-cases (fd' == fd)) [
      | inl same_fd ↦ absurd (let x : none ≡ some info = rw same_fd at (k) in cc)
      | inr ne ↦
          let (q, e, u, at, e_is) = v.here fd' info h (rw ne at (k)) in
          let apart : same q p ≡ false = elim (Bool-cases (same q p)) [
            | inr d ↦ d
            | inl d ↦
                let e_old : e ≡ old =
                  some-entry e old (sym at ∙ ap (entry_at b.data_) (same-eq q p d) ∙ at_p) in
                absurd (let f : fd' ≡ fd = sym e_is ∙ ap (λ x. x.fd) e_old ∙ is in ground arith)
          ] in
          elim (Bool-cases (same q l)) [
            | inr d ↦
                let w = back q u d in
                let (_, _, read) = forward q w in (q, e, w, read ∙ rw apart at, e_is)
            | inl d ↦
                let not_last : same p l ≡ false = ground arith in
                let w = back p used not_last in
                let (_, _, read) = forward p w in
                let e_moved : moved ≡ e =
                  some-entry moved e
                    (sym at_l ∙ ap (entry_at b.data_) (sym (same-eq q l d)) ∙ at) in
                (p, e, w, read ∙ rw (same_refl p) (ap some e_moved), e_is)
          ]
    ];
    distinct = λ q r e e' u w at at' k.
        (let (q', uq, atq, _, cq) = source q e u at in
          let (r', ur, atr, _, cr) = source r e' w at' in
          let t : same q' r' ≡ true = v.distinct q' r' e e' uq ur atq atr k in
          let (_, lq, _) = forward q u in
          let (_, lr, _) = forward r w in
          elim cq [
            | inl (a, x) ↦ elim cr [
              | inl (b, y) ↦ ground arith
              | inr (b, y) ↦ absurd (let z : same l r ≡ true = rw (x, y) at (t) in ground arith)
            ]
            | inr (a, x) ↦ elim cr [
              | inl (b, y) ↦ absurd (let z : same q l ≡ true = rw (x, y) at (t) in cc)
              | inr (b, y) ↦ rw (x, y) at (t)
            ]
          ]);
  }

abbrev last_of : Bucket → Pointer
last_of b = record { behind = length b.data_ - 1; slot = (b.size - 1) % 16 }

-- The groups with the last entry in place of the removed one, and those that are left.
abbrev filled : Pointer → Entry → Bucket → List Group
filled p moved b = if same p (last_of b) then b.data_ else write_at b.data_ p moved

abbrev kept : ℕ → List Group → List Group
kept n gs = if not (n == 0) && (n % 16 == 0) then rest_of gs else gs

length-filled :
    (p : Pointer) (moved : Entry) (b : Bucket) → length (filled p moved b) ≡ length b.data_
length-filled p moved b = elim (Bool-cases (same p (last_of b))) [
  | inl h ↦ rw h refl
  | inr h ↦ rw h (length-write_at b.data_ p moved)
]

length-rest_of : (gs : List Group) → length (rest_of gs) ≡ length gs - 1
length-rest_of [] = refl
length-rest_of (g ∷ gs) = omega arith

length-kept :
    (n : ℕ) (gs : List Group) → length gs ≡ suc (n / 16) → length (kept n gs) ≡ suc ((n - 1) / 16)
length-kept n gs h = elim (Bool-cases (not (n == 0) && (n % 16 == 0))) [
  | inl e ↦ rw e (ground (arith, h, length-rest_of gs))
  | inr e ↦ rw e (ground (arith, h))
]

entry_at-rest_of :
    (gs : List Group) (q : Pointer)
    → q.behind < length gs - 1
    → entry_at (rest_of gs) q ≡ entry_at gs q
entry_at-rest_of [] q h = refl
entry_at-rest_of (g ∷ gs) q h = sym (entry_at-cons g gs q (omega (arith, h)))

entry_at-kept :
    (n : ℕ) (gs : List Group) (q : Pointer)
    → length gs ≡ suc (n / 16)
    → 16 * q.behind + q.slot < n
    → entry_at (kept n gs) q ≡ entry_at gs q
entry_at-kept n gs q h lt = elim (Bool-cases (not (n == 0) && (n % 16 == 0))) [
  | inl e ↦ rw e (entry_at-rest_of gs q (ground (arith, h)))
  | inr e ↦ rw e refl
]

entry_at-filled :
    (p q : Pointer) (moved : Entry) (b : Bucket)
    → p.behind < length b.data_
    → same q (last_of b) ≡ false
    → entry_at (filled p moved b) q ≡ (if same q p then some moved else entry_at b.data_ q)
entry_at-filled p q moved b h apart = elim (Bool-cases (same p (last_of b))) [
  | inl e ↦ (let d : same q p ≡ false = ground arith in rw (e, d) refl)
  | inr e ↦ rw e (entry_at-write_at b.data_ p q moved h)
]

remove_entry-groups :
    (p : Pointer) (moved : Entry) (b : Bucket)
    → entry_at b.data_ (last_of b) ≡ some moved
    → remove_entry p b ≡ record { size = b.size - 1; data_ = kept (b.size - 1) (filled p moved b) }
unfolding remove_entry
remove_entry-groups p moved b at = rw at refl

-- The last entry takes the place of the removed one, and a group that is empty is freed.
pub remove_entry-IsBucket :
    (c fd : ℕ) (b : Bucket) (m : Map) (p : Pointer) (old : Entry)
    → IsBucket c b m
    → InUse b p
    → entry_at b.data_ p ≡ some old
    → old.fd ≡ fd
    → IsBucket c (remove_entry p b) (put m fd none)
remove_entry-IsBucket c fd b m p old v u at is =
    let l = last_of b in
    let n = b.size - 1 in
    let len : length b.data_ ≡ suc (n / 16) = v.packed in
    let used_l : InUse b l = (omega arith, omega (arith, len, u.1)) in
    let (moved, at_l) = entry_at-some b.data_ l (InUse-behind b l v.packed used_l) in
    let gs = filled p moved b in
    let len' : length gs ≡ suc (n / 16) = length-filled p moved b ∙ len in
    let b' : Bucket = record { size = n; data_ = kept n gs } in
    let not_last : (q : Pointer) → InUse b' q → same q l ≡ false =
      λ q w. ground (arith, len, w.0, w.1) in
    rw (remove_entry-groups p moved b at_l) (
      unset-IsBucket c fd b b' m v p l old moved (length-kept n gs len') u at is used_l at_l
        (λ q w. (
          (w.0, omega (arith, w.1)),
          not_last q w,
          entry_at-kept n gs q len' w.1
              ∙ entry_at-filled p q moved b (InUse-behind b p v.packed u) (not_last q w),
        ))
        (λ q w apart. (w.0, ground (arith, len, w.0, w.1, apart))))
