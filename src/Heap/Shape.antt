-- ===== src/Heap/Shape.antt =====
-- heap-inl.h: the shape of the tree. Its places are numbered 1, 2, ... by rows, and the first
-- `nelts` of them are taken.
use sebbu_c_libuv.Base.{
  ℕ, zero, suc, ◌+◌, ◌*◌, ◌/◌, ◌%◌, ◌≤◌, ◌<◌, ◌≡◌, refl, Bool, some, List, [], ◌∷◌, arith, ◌==◌,
  inl, inr, Bool-cases, ==_iff, ◌≢◌, ◌⊎◌, compare_cases,
}
use sebbu_c_libuv.Heap.Walk.{root, stop_at, walk_down_inv}
use sebbu_c_libuv.Heap.{
  Tree, null, node, Crumb, from_left, from_right, Place, plug, walk_up, walk_down,
}

module _ {ℓ} {A : Type ℓ} where
  -- The subtree at place `i` of a tree with the places 1 to `n`.
  abbrev pub IsComplete : ℕ → ℕ → Tree A → Type 0
  IsComplete n i null = n < i
  IsComplete n i (node l x r) = (i ≤ n) × IsComplete n (2 * i) l × IsComplete n (2 * i + 1) r

  -- The number of the place below the crumbs.
  abbrev pub number : List (Crumb A) → ℕ
  number [] = 1
  number (from_left p s ∷ c) = 2 * number c
  number (from_right s p ∷ c) = 2 * number c + 1

  -- The same of all that is not below the crumbs.
  abbrev pub IsCompleteAbove : ℕ → List (Crumb A) → Type 0
  IsCompleteAbove n [] = Unit
  IsCompleteAbove n (from_left p s ∷ c) =
      (number c ≤ n) × IsComplete n (2 * number c + 1) s × IsCompleteAbove n c
  IsCompleteAbove n (from_right s p ∷ c) =
      (number c ≤ n) × IsComplete n (2 * number c) s × IsCompleteAbove n c

  pub plug-IsComplete :
      (n : ℕ) (t : Tree A) (c : List (Crumb A))
      → IsComplete n (number c) t
      → IsCompleteAbove n c
      → IsComplete n 1 (plug t c)
  unfolding plug
  plug-IsComplete n t [] h a = h
  plug-IsComplete n t (from_left p s ∷ c) h a = plug-IsComplete n (node t p s) c (a.0, h, a.1) a.2
  plug-IsComplete n t (from_right s p ∷ c) h a = plug-IsComplete n (node s p t) c (a.0, a.1, h) a.2

  pub unplug-IsComplete :
      (n : ℕ) (t : Tree A) (c : List (Crumb A))
      → IsComplete n 1 (plug t c)
      → IsComplete n (number c) t × IsCompleteAbove n c
  unfolding plug
  unplug-IsComplete n t [] h = (h, tt)
  unplug-IsComplete n t (from_left p s ∷ c) h =
      let (at, above) = unplug-IsComplete n (node t p s) c h in (at.1, (at.0, at.2, above))
  unplug-IsComplete n t (from_right s p ∷ c) h =
      let (at, above) = unplug-IsComplete n (node s p t) c h in (at.2, (at.0, at.1, above))

module _ {ℓ} {A : Type ℓ} (less_than : A → A → Bool) where
  pub walk_up-IsComplete :
      (n : ℕ) (l : Tree A) (x : A) (r : Tree A) (c : List (Crumb A))
      → IsComplete n (number c) (node l x r)
      → IsCompleteAbove n c
      → IsComplete n 1 (walk_up less_than l x r c)
  unfolding walk_up
  walk_up-IsComplete n l x r [] h a = h
  walk_up-IsComplete n l x r (from_left p s ∷ c) h a = elim (Bool-cases (less_than x p)) [
    | inl e ↦ rw e (walk_up-IsComplete n (node l p r) x s c (a.0, h, a.1) a.2)
    | inr e ↦ rw e (plug-IsComplete n (node l x r) (from_left p s ∷ c) h a)
  ]
  walk_up-IsComplete n l x r (from_right s p ∷ c) h a = elim (Bool-cases (less_than x p)) [
    | inl e ↦ rw e (walk_up-IsComplete n s x (node l p r) c (a.0, a.1, h) a.2)
    | inr e ↦ rw e (plug-IsComplete n (node l x r) (from_right s p ∷ c) h a)
  ]

-- The path: `bits k path` is where the walk ends that starts at place `i`.
abbrev pub target : ℕ → ℕ → ℕ → ℕ
target i zero path = i
target i (suc k) path = target (2 * i + path % 2) k (path / 2)

-- The place `e` rows above `t`.
abbrev pub halve : ℕ → ℕ → ℕ
halve zero t = t
halve (suc e) t = halve e t / 2

pub halve-target : (i k path : ℕ) → halve k (target i k path) ≡ i
halve-target i zero path = refl
halve-target i (suc k) path = omega (arith, halve-target (2 * i + path % 2) k (path / 2))

pub le-target : (i k path : ℕ) → i ≤ target i k path
le-target i zero path = omega arith
le-target i (suc k) path = omega (arith, le-target (2 * i + path % 2) k (path / 2))

-- A place further up has at most half the number.
halve-le : (e d t : ℕ) → e < d → 2 * halve d t ≤ halve e t
halve-le e zero t h = elim h [ ]
halve-le e (suc d) t h = elim (Bool-cases (e == d)) [
  | inl q ↦ let same : e ≡ d = (==_iff e d).0 q in rw same (omega arith)
  | inr q ↦ omega (arith, halve-le e d t (ground arith))
]

-- Place `j` is not on the way from the root to `t`.
abbrev pub Avoids : ℕ → ℕ → Type 0
Avoids t j = (e : ℕ) → halve e t ≢ j

pub Avoids-sibling :
    (t i j k : ℕ)
    → 0 < i
    → halve (suc k) t ≡ i
    → halve k t ≢ j
    → (j ≡ 2 * i) ⊎ (j ≡ 2 * i + 1)
    → Avoids t j
Avoids-sibling t i j k pos up ne side e q = elim (compare_cases e k) [
  | inl below ↦ ground (arith, halve-le e k t below)
  | inr (inl same) ↦ ne (rw same at q)
  | inr (inr over) ↦ ground (arith, halve-le k e t over)
]

Avoids-children : (t j : ℕ) → Avoids t j → Avoids t (2 * j) × Avoids t (2 * j + 1)
Avoids-children t j a = (λ e q. a (suc e) (omega arith), λ e q. a (suc e) (omega arith))

module _ {ℓ} {A : Type ℓ} where
  pub grow : (n j : ℕ) (s : Tree A) → Avoids (suc n) j → IsComplete n j s → IsComplete (suc n) j s
  grow n j null a h = omega (arith, a 0)
  grow n j (node l x r) a h = (
    omega arith,
    grow n (2 * j) l (Avoids-children (suc n) j a).0 h.1,
    grow n (2 * j + 1) r (Avoids-children (suc n) j a).1 h.2,
  )

  pub shrink : (n j : ℕ) (s : Tree A) → Avoids (suc n) j → IsComplete (suc n) j s → IsComplete n j s
  shrink n j null a h = omega arith
  shrink n j (node l x r) a h = (
    omega (arith, a 0),
    shrink n (2 * j) l (Avoids-children (suc n) j a).0 h.1,
    shrink n (2 * j + 1) r (Avoids-children (suc n) j a).1 h.2,
  )

module _ {ℓ} {A : Type ℓ} (less_than : A → A → Bool) (n : ℕ) where
  -- A node in its place: the shape below it and around it.
  abbrev pub IsCompleteAt : Place A → Type 0
  IsCompleteAt w =
      IsComplete n (number w.above) (node w.left w.elem w.right) × IsCompleteAbove n w.above

  pub walk_down-IsComplete :
      (x : A) (l : Tree A) (y : A) (r : Tree A) (c : List (Crumb A))
      → IsComplete n (number c) (node l y r)
      → IsCompleteAbove n c
      → IsCompleteAt (walk_down less_than x (node l y r) c)
  walk_down-IsComplete x l y r c h a =
      walk_down_inv less_than x (λ t c'. IsCompleteAt (stop_at x t c')) IsCompleteAt (λ t c' i. i)
        left right (node l y r) c (h, a)
    where
      left :
          (l' : Tree A) (y' : A) (r' : Tree A) (c' : List (Crumb A)) (b : A)
          → root l' ≡ some b
          → IsCompleteAt (stop_at x (node l' y' r') c')
          → IsCompleteAt (stop_at x l' (from_left b r' ∷ c'))
      left null y' r' c' b e i = cc
      left (node l2 z r2) y' r' c' b e i = (i.0.1, (i.0.0, i.0.2, i.1))

      right :
          (l' : Tree A) (y' : A) (r' : Tree A) (c' : List (Crumb A)) (b : A)
          → root r' ≡ some b
          → IsCompleteAt (stop_at x (node l' y' r') c')
          → IsCompleteAt (stop_at x r' (from_right l' b ∷ c'))
      right l' y' null c' b e i = cc
      right l' y' (node l2 z r2) c' b e i = (i.0.2, (i.0.0, i.0.1, i.1))
