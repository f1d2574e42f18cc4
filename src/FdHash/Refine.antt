-- ===== src/FdHash/Refine.antt =====
-- win/fs-fd-hash-inl.h: the table implements the map.
use sebbu_c_libuv.Base.{
  ℕ, ◌%◌, ◌≡◌, ◌≢◌, inl, inr, refl, sym, ap, ◌∙◌, Option, none, some, List, [], ◌∷◌, ◌==◌, ==_iff,
  arith, Bool-cases,
}
use sebbu_c_libuv.FdHash.{
  Info, Group, Bucket, FdHash, put, write_at, add_entry, remove_entry, uv__fd_hash_init,
  uv__fd_hash_get, uv__fd_hash_add, uv__fd_hash_remove,
}
use sebbu_c_libuv.FdHash.Laws.{Map, IsBucket, IsBucket-put, put-other, find_in_bucket-map}
use sebbu_c_libuv.FdHash.Change.{write_at-IsBucket, add_entry-IsBucket}
use sebbu_c_libuv.FdHash.Remove.{remove_entry-IsBucket}
use sebbu_c_libuv.FdHash.Spec.{Op, get, add, remove, spec, table, answers, Represents}

-- A table in which one bucket was changed.
put-Represents :
    (fd : ℕ) (x : Option Info) (h : FdHash) (m : Map) (b : Bucket)
    → Represents h m
    → IsBucket (fd % 256) b (put m fd x)
    → Represents (put h (fd % 256) b) (put m fd x)
put-Represents fd x h m b r new c = elim (Bool-cases (c == fd % 256)) [
  | inl e ↦ rw (e, (==_iff c (fd % 256)).0 e) new
  | inr e ↦ rw e (IsBucket-put c fd x (h c) m (λ k. ground arith) (r c))
]

init-Represents : (initial : ℕ → Group) → Represents (uv__fd_hash_init initial) (λ fd. none)
unfolding uv__fd_hash_init
init-Represents initial c = record {
  packed = refl;
  home = λ p e u at. absurd (omega (arith, u.1));
  here = λ fd info h k. absurd cc;
  distinct = λ p q e e' u w at at' k. absurd (omega (arith, u.1));
}

pub uv__fd_hash_get-map :
    (fd : ℕ) (h : FdHash) (m : Map) → Represents h m → uv__fd_hash_get fd h ≡ m fd
unfolding uv__fd_hash_get
uv__fd_hash_get-map fd h m r = elim (find_in_bucket-map fd (h (fd % 256)) m (r (fd % 256))) [
  | inl (e, out) ↦ rw (uv__fd_hash_get, e) (sym out)
  | inr (p, x, e, u, at, is, has) ↦ rw (uv__fd_hash_get, e, at) (sym has)
]

pub uv__fd_hash_add-Represents :
    (fresh : Group) (fd : ℕ) (info : Info) (h : FdHash) (m : Map)
    → Represents h m
    → Represents (uv__fd_hash_add fresh fd info h) (put m fd (some info))
unfolding uv__fd_hash_add
uv__fd_hash_add-Represents fresh fd info h m r =
    elim (find_in_bucket-map fd (h (fd % 256)) m (r (fd % 256))) [
      | inl (e, out) ↦
          rw (uv__fd_hash_add, e)
            (put-Represents fd (some info) h m
              (add_entry fresh (record { fd = fd; info = info }) (h (fd % 256))) r
              (add_entry-IsBucket fresh (fd % 256) fd info (h (fd % 256)) m (r (fd % 256)) refl
                out))
      | inr (p, x, e, u, at, is, has) ↦
          rw (uv__fd_hash_add, e)
            (put-Represents fd (some info) h m
              (record (h (fd % 256)) {
                data_ = write_at (h (fd % 256)).data_ p (record { fd = fd; info = info });
              })
              r
              (write_at-IsBucket (fd % 256) fd info (h (fd % 256)) m p x (r (fd % 256)) refl u at
                is))
    ]

absent : (info : Info) → some info ≢ none
absent info k = cc

-- A descriptor that is not there leaves the table as it is.
absent-Represents :
    (fd : ℕ) (h : FdHash) (m : Map) → Represents h m → m fd ≡ none → Represents h (put m fd none)
absent-Represents fd h m r out c =
    let v = r c in
    record {
      packed = v.packed;
      home = λ p e u at.
          (let (a, has) = v.home p e u at in
            (a, put-other m fd e.fd none (λ k. absent (e.info) (sym has ∙ ap m k ∙ out)) ∙ has));
      here = λ fd' info h' k. elim (Bool-cases (fd' == fd)) [
        | inl is ↦ absurd (let x : none ≡ some info = rw is at (k) in cc)
        | inr ne ↦ v.here fd' info h' (rw ne at (k))
      ];
      distinct = v.distinct;
    }

pub uv__fd_hash_remove-Represents :
    (fd : ℕ) (h : FdHash) (m : Map)
    → Represents h m
    → ((uv__fd_hash_remove fd h).0 ≡ m fd)
      × Represents ((uv__fd_hash_remove fd h).1) (put m fd none)
unfolding uv__fd_hash_remove
uv__fd_hash_remove-Represents fd h m r =
    elim (find_in_bucket-map fd (h (fd % 256)) m (r (fd % 256))) [
      | inl (e, out) ↦ rw (uv__fd_hash_remove, e) (sym out, absent-Represents fd h m r out)
      | inr (p, x, e, u, at, is, has) ↦
          rw (uv__fd_hash_remove, e, at)
            (
              sym has,
              put-Represents fd none h m (remove_entry p (h (fd % 256))) r
                  (remove_entry-IsBucket (fd % 256) fd (h (fd % 256)) m p x (r (fd % 256)) u at is),
            )
    ]

answers-Represents :
    (fresh : ℕ → Group) (os : List Op) (h : FdHash) (m : Map)
    → Represents h m
    → answers (table fresh) os h ≡ answers spec os m
answers-Represents fresh [] h m r = refl
answers-Represents fresh (get fd ∷ os) h m r =
    rw (uv__fd_hash_get-map fd h m r) (ap (◌∷◌ (m fd)) (answers-Represents fresh os h m r))
answers-Represents fresh (add fd info ∷ os) h m r = ap (◌∷◌ none) (
    answers-Represents fresh os (uv__fd_hash_add (fresh fd) fd info h) (put m fd (some info))
      (uv__fd_hash_add-Represents (fresh fd) fd info h m r))
answers-Represents fresh (remove fd ∷ os) h m r =
    let (a, r') = uv__fd_hash_remove-Represents fd h m r in
    rw a (
      ap (◌∷◌ (m fd))
        (answers-Represents fresh os ((uv__fd_hash_remove fd h).1) (put m fd none) r'))

-- The table answers every sequence of insertions, searches and removals as a map does that starts
-- out empty, whatever is in the memory of its groups.
pub answers-table :
    (initial fresh : ℕ → Group) (os : List Op)
    → answers (table fresh) os (uv__fd_hash_init initial) ≡ answers spec os (λ fd. none)
answers-table initial fresh os =
    answers-Represents fresh os (uv__fd_hash_init initial) (λ fd. none) (init-Represents initial)
