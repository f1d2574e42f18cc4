-- ===== src/Heap/Walk.antt =====
-- heap-inl.h: an invariant rule for the walk down of `heap_remove`.
use sebbu_c_libuv.Base.{◌≡◌, refl, Bool, Option, none, some, List, ◌∷◌, inl, inr, Bool-cases}
use sebbu_c_libuv.Heap.{
  Tree, null, node, Crumb, from_left, from_right, Place, Smallest, itself, the_left, the_right,
  smallest, walk_down,
}

abbrev pub root {ℓ} : {A : Type ℓ} → Tree A → Option A
root null = none
root (node l x r) = some x

-- The place where the walk stops if `x` replaces the root of the tree.
abbrev pub stop_at {ℓ} : {A : Type ℓ} → A → Tree A → List (Crumb A) → Place A
stop_at x null c = record { left = null; elem = x; right = null; above = c }
stop_at x (node l y r) c = record { left = l; elem = x; right = r; above = c }

-- The chosen child is the root of its side.
data Chosen {ℓ} {A : Type ℓ} (l r : Tree A) : Smallest A → Type ℓ where
  stays : Chosen l r itself
  goes_left : {a : A} → root l ≡ some a → Chosen l r (the_left a)
  goes_right : {b : A} → root r ≡ some b → Chosen l r (the_right b)

smallest-Chosen {ℓ} :
    {A : Type ℓ} (less_than : A → A → Bool) (x : A) (l r : Tree A)
    → Chosen l r (smallest less_than x l r)
unfolding smallest
smallest-Chosen less_than x null null = stays
smallest-Chosen less_than x null (node _ b _) = elim (Bool-cases (less_than b x)) [
  | inl e ↦ rw e (goes_right refl)
  | inr e ↦ rw e stays
]
smallest-Chosen less_than x (node _ a _) null = elim (Bool-cases (less_than a x)) [
  | inl e ↦ rw e (goes_left refl)
  | inr e ↦ rw e stays
]
smallest-Chosen less_than x (node _ a _) (node _ b _) = elim (Bool-cases (less_than a x)) [
  | inl ea ↦ elim (Bool-cases (less_than b a)) [
    | inl e ↦ rw (ea, e) (goes_right refl)
    | inr e ↦ rw (ea, e) (goes_left refl)
  ]
  | inr ea ↦ elim (Bool-cases (less_than b x)) [
    | inl e ↦ rw (ea, e) (goes_right refl)
    | inr e ↦ rw (ea, e) stays
  ]
]

module _ {ℓ κ} {A : Type ℓ} (less_than : A → A → Bool) (x : A)
    (Q : Tree A → List (Crumb A) → Type κ) (P : Place A → Type κ)
    (stop : (t : Tree A) (c : List (Crumb A)) → Q t c → P (stop_at x t c))
    (left : (l : Tree A) (y : A) (r : Tree A) (c : List (Crumb A)) (a : A)
      → root l ≡ some a
      → Q (node l y r) c
      → Q l (from_left a r ∷ c))
    (right : (l : Tree A) (y : A) (r : Tree A) (c : List (Crumb A)) (b : A)
      → root r ≡ some b
      → Q (node l y r) c
      → Q r (from_right l b ∷ c)) where
  pub walk_down_inv : (t : Tree A) (c : List (Crumb A)) → Q t c → P (walk_down less_than x t c)
  unfolding walk_down
  walk_down_inv null c h = stop null c h
  walk_down_inv (node l y r) c h =
      go (smallest less_than x l r) (smallest-Chosen less_than x l r) (walk_down_inv l)
        (walk_down_inv r)
    where
      go :
          (s : Smallest A)
          → Chosen l r s
          → ((c : List (Crumb A)) → Q l c → P (walk_down less_than x l c))
          → ((c : List (Crumb A)) → Q r c → P (walk_down less_than x r c))
          → P (elim s [
            | itself ↦ record { left = l; elem = x; right = r; above = c }
            | the_left a ↦ walk_down less_than x l (from_left a r ∷ c)
            | the_right b ↦ walk_down less_than x r (from_right l b ∷ c)
          ])
      go itself stays ihl ihr = stop (node l y r) c h
      go (the_left a) (goes_left e) ihl ihr = ihl (from_left a r ∷ c) (left l y r c a e h)
      go (the_right b) (goes_right e) ihl ihr = ihr (from_right l b ∷ c) (right l y r c b e h)
