-- ===== src/FdHash/Spec.antt =====
-- win/fs-fd-hash-inl.h: what the table promises, a map from descriptors to information.
use sebbu_c_libuv.Base.{ℕ, Option, none, some, List, [], ◌∷◌}
use sebbu_c_libuv.FdHash.{
  Info, Group, FdHash, put, uv__fd_hash_get, uv__fd_hash_add, uv__fd_hash_remove,
}
use sebbu_c_libuv.FdHash.Laws.{Map, IsBucket}

pub data Op : Type 0 where
  get : ℕ → Op
  add : ℕ → Info → Op
  remove : ℕ → Op

-- The answer and the next map.
abbrev pub spec : Op → Map → Option Info × Map
spec (get fd) m = (m fd, m)
spec (add fd info) m = (none, put m fd (some info))
spec (remove fd) m = (m fd, put m fd none)

abbrev pub table : (ℕ → Group) → Op → FdHash → Option Info × FdHash
table fresh (get fd) h = (uv__fd_hash_get fd h, h)
table fresh (add fd info) h = (none, uv__fd_hash_add (fresh fd) fd info h)
table fresh (remove fd) h = uv__fd_hash_remove fd h

-- The answers to a sequence of operations.
abbrev pub answers {ℓ} :
    {S : Type ℓ} → (Op → S → Option Info × S) → List Op → S → List (Option Info)
answers step [] s = []
answers step (o ∷ os) s = let (a, s') = step o s in a ∷ answers step os s'

abbrev pub Represents : FdHash → Map → Type 0
Represents h m = (c : ℕ) → IsBucket c (h c) m
