-- ===== src/FdHash/Laws.antt =====
-- win/fs-fd-hash-inl.h: a bucket as a part of a map from descriptors to information.
use sebbu_c_libuv.Base.{
  ℕ, ◌%◌, ◌≡◌, ◌≢◌, ◌⊎◌, inl, inr, refl, sym, ap, ◌∙◌, true, false, Option, none, some, ◌==◌,
  ==_iff, arith, Bool-cases, Option-cases,
}
use sebbu_c_libuv.FdHash.{Info, Entry, Bucket, Pointer, put, find_in_bucket, entry_at}
use sebbu_c_libuv.FdHash.Find.{same, InUse, Packed, find_in_bucket-some, find_in_bucket-none}

abbrev pub Map : Type 0
Map = ℕ → Option Info

-- The entries in use of bucket `c` are the map's on the descriptors of that bucket, each once.
pub record IsBucket (c : ℕ) (b : Bucket) (m : Map) : Type 0 where
  pub packed : Packed b
  pub home :
      (p : Pointer) (e : Entry)
      → InUse b p
      → entry_at b.data_ p ≡ some e
      → (e.fd % 256 ≡ c) × (m e.fd ≡ some e.info)
  pub here :
      (fd : ℕ) (info : Info)
      → fd % 256 ≡ c
      → m fd ≡ some info
      → (p : Pointer) × (e : Entry) × InUse b p × (entry_at b.data_ p ≡ some e) × (e.fd ≡ fd)
  pub distinct :
      (p q : Pointer) (e e' : Entry)
      → InUse b p
      → InUse b q
      → entry_at b.data_ p ≡ some e
      → entry_at b.data_ q ≡ some e'
      → e.fd ≡ e'.fd
      → same p q ≡ true

-- A change of the map elsewhere.
pub IsBucket-put :
    (c fd : ℕ) (x : Option Info) (b : Bucket) (m : Map)
    → fd % 256 ≢ c
    → IsBucket c b m
    → IsBucket c b (put m fd x)
IsBucket-put c fd x b m other v = record {
  packed = v.packed;
  home = λ p e u at.
      (let (a, b') = v.home p e u at in
        let ne : (e.fd == fd) ≡ false = ground arith in (a, rw ne b'));
  here = λ fd' info h k.
      (let ne : (fd' == fd) ≡ false = ground arith in
        let k' : m fd' ≡ some info = rw ne at (k) in v.here fd' info h k');
  distinct = v.distinct;
}

-- What the search says about the map.
pub find_in_bucket-map :
    (fd : ℕ) (b : Bucket) (m : Map)
    → IsBucket (fd % 256) b m
    → ((find_in_bucket fd b ≡ none) × (m fd ≡ none))
      ⊎ ((p : Pointer) × (e : Entry) × (find_in_bucket fd b ≡ some p)
          × InUse b p
          × (entry_at b.data_ p ≡ some e)
          × (e.fd ≡ fd)
          × (m fd ≡ some e.info))
find_in_bucket-map fd b m v = elim (Option-cases (find_in_bucket fd b)) [
  | inr (p, e) ↦
      let (f, u) = find_in_bucket-some fd b p v.packed e in
      let (home, is) = v.home p f.entry u f.at in
      inr (p, f.entry, e, u, f.at, f.match_, ap m (sym f.match_) ∙ is)
  | inl e ↦ elim (Option-cases (m fd)) [
    | inl out ↦ inl (e, out)
    | inr (info, is) ↦
        let (p, x, u, at, fd_is) = v.here fd info refl is in
        absurd (find_in_bucket-none fd b p x v.packed e u at fd_is)
  ]
]

pub some-entry : (a b : Entry) → some a ≡ some b → a ≡ b
some-entry a b h = cc

abbrev pointer : ℕ → ℕ → Pointer
pointer a b = record { behind = a; slot = b }

pointer-eq : (a b c d : ℕ) → a ≡ c → b ≡ d → pointer a b ≡ pointer c d
pointer-eq a b c d h k = rw (h, k) refl

pub same-eq : (p q : Pointer) → same p q ≡ true → p ≡ q
same-eq p q h =
    pointer-eq p.behind p.slot q.behind q.slot ((==_iff p.behind q.behind).0 (ground arith))
      ((==_iff p.slot q.slot).0 (ground arith))

pub same_refl : (p : Pointer) → same p p ≡ true
same_refl p = ground arith

pub put-same : (m : Map) (fd : ℕ) (x : Option Info) → put m fd x fd ≡ x
put-same m fd x = ground arith

pub put-other : (m : Map) (fd fd' : ℕ) (x : Option Info) → fd' ≢ fd → put m fd x fd' ≡ m fd'
put-other m fd fd' x ne = (let k : (fd' == fd) ≡ false = ground arith in rw k refl)

-- A bucket `b'` that has the entries of `b`, but that of `fd` at `p`.
module _ (c fd : ℕ) (info : Info) (b b' : Bucket) (m : Map) (v : IsBucket c b m) (p : Pointer)
    (packed : Packed b') (bucket : fd % 256 ≡ c) (used : InUse b' p)
    (new : entry_at b'.data_ p ≡ some (record { fd = fd; info = info }))
    (others : (q : Pointer)
      → InUse b' q
      → same q p ≡ false
      → InUse b q × (entry_at b'.data_ q ≡ entry_at b.data_ q))
    (back : (q : Pointer) → InUse b q → same q p ≡ false → InUse b' q)
    (taken : (q : Pointer)
      → (e : Entry) → InUse b q
      → entry_at b.data_ q ≡ some e
      → e.fd ≡ fd
      → same q p ≡ true)
    (gone : (q : Pointer)
      → (e : Entry) → InUse b q
      → entry_at b.data_ q ≡ some e
      → same q p ≡ true
      → e.fd ≡ fd) where
  abbrev entry : Entry
  entry = record { fd = fd; info = info }

  at_new : (q : Pointer) (e : Entry) → entry_at b'.data_ q ≡ some e → same q p ≡ true → e ≡ entry
  at_new q e at h = some-entry e entry (sym at ∙ ap (entry_at b'.data_) (same-eq q p h) ∙ new)

  at_old :
      (q : Pointer) (e : Entry)
      → InUse b' q
      → entry_at b'.data_ q ≡ some e
      → same q p ≡ false
      → InUse b q × (entry_at b.data_ q ≡ some e) × (e.fd ≢ fd)
  at_old q e u at h =
      let (u', is) = others q u h in
      let at' = sym is ∙ at in (u', at', λ k. (let t = taken q e u' at' k in cc))

  pub set-IsBucket : IsBucket c b' (put m fd (some info))
  set-IsBucket = record {
    packed = packed;
    home = λ q e u at. elim (Bool-cases (same q p)) [
      | inl h ↦ rw (at_new q e at h) (bucket, put-same m fd (some info))
      | inr h ↦
          let (u', at', ne) = at_old q e u at h in
          let (home, is) = v.home q e u' at' in (home, put-other m fd e.fd (some info) ne ∙ is)
    ];
    here = λ fd' info' h k. elim (Bool-cases (fd' == fd)) [
      | inl is ↦ (p, entry, used, new, sym ((==_iff fd' fd).0 is))
      | inr ne ↦
          let (q, e, u, at, is) = v.here fd' info' h (rw ne at (k)) in
          let d : same q p ≡ false = elim (Bool-cases (same q p)) [
            | inr d ↦ d
            | inl d ↦ absurd (let g = gone q e u at d in ground arith)
          ] in
          let u' = back q u d in
          let (_, same_entry) = others q u' d in (q, e, u', same_entry ∙ at, is)
    ];
    distinct = λ q r e e' u w at at' k. elim (Bool-cases (same q p)) [
      | inl h ↦ elim (Bool-cases (same r p)) [
        | inl j ↦ ground arith
        | inr j ↦
            let (_, _, ne) = at_old r e' w at' j in
            absurd (ne (sym k ∙ ap (λ x. x.fd) (at_new q e at h)))
      ]
      | inr h ↦
          let (u', old, ne) = at_old q e u at h in
          elim (Bool-cases (same r p)) [
            | inl j ↦ absurd (ne (k ∙ ap (λ x. x.fd) (at_new r e' at' j)))
            | inr j ↦
                let (w', old', ne') = at_old r e' w at' j in v.distinct q r e e' u' w' old old' k
          ]
    ];
  }
