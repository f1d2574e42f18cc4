-- ===== src/FdHash/Change.antt =====
-- win/fs-fd-hash-inl.h: what uv__fd_hash_add and uv__fd_hash_remove do to a bucket.
use sebbu_c_libuv.Base.{
  ℕ, suc, ◌-◌, ◌%◌, ◌/◌, ◌<◌, ◌≡◌, inl, inr, refl, sym, ap, ◌∙◌, false, not, ◌&&◌, none, some, List,
  ◌∷◌, length, ◌==◌, if◌then◌else◌, arith, Bool-cases,
}
use sebbu_c_libuv.FdHash.{
  Info, Entry, Group, Bucket, Pointer, group_size, put, entry_at, write_at, add_entry,
}
use sebbu_c_libuv.FdHash.Find.{
  same, length-write_at, entry_at-write_at, entry_at-cons, InUse, Packed, InUse-behind,
}
use sebbu_c_libuv.FdHash.Laws.{Map, IsBucket, same-eq, same_refl, some-entry, set-IsBucket}

-- An entry that is overwritten with new information.
pub write_at-IsBucket :
    (c fd : ℕ) (info : Info) (b : Bucket) (m : Map) (p : Pointer) (old : Entry)
    → IsBucket c b m
    → fd % 256 ≡ c
    → InUse b p
    → entry_at b.data_ p ≡ some old
    → old.fd ≡ fd
    → IsBucket c
        (record b { data_ = write_at b.data_ p (record { fd = fd; info = info }) })
        (put m fd (some info))
write_at-IsBucket c fd info b m p old v bucket u at is =
    let new : Entry = record { fd = fd; info = info } in
    let b' = record b { data_ = write_at b.data_ p new } in
    let read = λ (q : Pointer). entry_at-write_at b.data_ p q new (InUse-behind b p v.packed u) in
    set-IsBucket c fd info b b' m v p (length-write_at b.data_ p new ∙ v.packed) bucket u
      (read p ∙ rw (same_refl p) refl) (λ q w h. (w, read q ∙ rw h refl)) (λ q w h. w)
      (λ q e w at' k. v.distinct q p e old w u at' at (k ∙ sym is))
      (λ q e w at' h.
        ap (λ x. x.fd) (some-entry e old (sym at' ∙ ap (entry_at b.data_) (same-eq q p h) ∙ at))
        ∙ is)

-- The groups with room for one more entry.
abbrev grown : Group → Bucket → List Group
grown fresh b = if not (b.size == 0) && (b.size % group_size == 0) then fresh ∷ b.data_ else b.data_

length-grown : (fresh : Group) (b : Bucket) → Packed b → length (grown fresh b) ≡ suc (b.size / 16)
length-grown fresh b packed = elim (Bool-cases (not (b.size == 0) && (b.size % 16 == 0))) [
  | inl full ↦ rw full (ground (arith, packed))
  | inr room ↦ rw room (ground (arith, packed))
]

entry_at-grown :
    (fresh : Group) (b : Bucket) (q : Pointer)
    → q.behind < length b.data_
    → entry_at (grown fresh b) q ≡ entry_at b.data_ q
entry_at-grown fresh b q h = elim (Bool-cases (not (b.size == 0) && (b.size % 16 == 0))) [
  | inl full ↦ rw full (entry_at-cons fresh b.data_ q h)
  | inr room ↦ rw room refl
]

-- A new entry for a descriptor that has none.
pub add_entry-IsBucket :
    (fresh : Group) (c fd : ℕ) (info : Info) (b : Bucket) (m : Map)
    → IsBucket c b m
    → fd % 256 ≡ c
    → m fd ≡ none
    → IsBucket c (add_entry fresh (record { fd = fd; info = info }) b) (put m fd (some info))
unfolding add_entry
add_entry-IsBucket fresh c fd info b m v bucket out =
    let new : Entry = record { fd = fd; info = info } in
    let gs = grown fresh b in
    let p : Pointer = record { behind = length gs - 1; slot = b.size % 16 } in
    let len = length-grown fresh b v.packed in
    let read = λ (q : Pointer). entry_at-write_at gs p q new (omega (arith, len)) in
    let fresh_slot : (q : Pointer) → InUse b q → same q p ≡ false =
      λ q w. ground (arith, len, w.0, w.1) in
    set-IsBucket c fd info b (add_entry fresh new b) m v p
      (length-write_at gs p new ∙ omega (arith, len)) bucket (omega arith, omega (arith, len))
      (read p ∙ rw (same_refl p) refl)
      (λ q w h.
        (let u : InUse b q = (w.0, ground (arith, len, w.0, w.1)) in
          (u, read q ∙ rw h (entry_at-grown fresh b q (InUse-behind b q v.packed u)))))
      (λ q w h. (w.0, omega (arith, w.1)))
      (λ q e w at k.
        (let (_, is) = v.home q e w at in
          let has : some e.info ≡ none = sym is ∙ ap m k ∙ out in absurd cc))
      (λ q e w at h. (let f = fresh_slot q w in absurd cc))
