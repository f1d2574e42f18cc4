-- ===== src/Base/Sublist.antt =====
-- Sublists: the same order, with some elements left out.
use Prim.Native.Nat.{◌≤◌}
use mathlib.Core.List.{List, [], ◌∷◌}
use native.Mathlib.Omega.{arith}
use sebbu_c_libuv.Base.Lists.{length}

pub data IsSublist {ℓ} {A : Type ℓ} : List A → List A → Type ℓ where
  nil : IsSublist [] []
  skip : {y : A} {xs ys : List A} → IsSublist xs ys → IsSublist xs (y ∷ ys)
  keep : {x : A} {xs ys : List A} → IsSublist xs ys → IsSublist (x ∷ xs) (x ∷ ys)

module _ {ℓ} {A : Type ℓ} where
  pub IsSublist-refl : (xs : List A) → IsSublist xs xs
  IsSublist-refl [] = nil
  IsSublist-refl (x ∷ xs) = keep (IsSublist-refl xs)

  pub IsSublist-trans :
      {ys zs : List A} → IsSublist ys zs → {xs : List A} → IsSublist xs ys → IsSublist xs zs
  IsSublist-trans nil p = p
  IsSublist-trans (skip q) p = skip (IsSublist-trans q p)
  IsSublist-trans (keep q) (skip p) = skip (IsSublist-trans q p)
  IsSublist-trans (keep q) (keep p) = keep (IsSublist-trans q p)

  pub IsSublist-length : {xs ys : List A} → IsSublist xs ys → length xs ≤ length ys
  IsSublist-length nil = omega arith
  IsSublist-length (skip p) = omega (arith, IsSublist-length p)
  IsSublist-length (keep p) = omega (arith, IsSublist-length p)
