-- ===== src/Heap/Contents.antt =====
-- heap-inl.h: what the tree holds. `count q t` is the number of nodes that pass the test `q`; two
-- trees hold the same nodes if they agree for every test.
use sebbu_c_libuv.Base.{
  ℕ, ◌+◌, ◌≡◌, refl, Bool, some, List, [], ◌∷◌, arith, inl, inr, Bool-cases, if◌then◌else◌,
}
use sebbu_c_libuv.Heap.{
  Tree, null, node, Crumb, from_left, from_right, Place, plug, walk_up, walk_down,
}
use sebbu_c_libuv.Heap.Walk.{root, stop_at, walk_down_inv}

module _ {ℓ} {A : Type ℓ} (q : A → Bool) where
  abbrev pub one : A → ℕ
  one x = if q x then 1 else 0

  abbrev pub count : Tree A → ℕ
  count null = 0
  count (node l x r) = count l + one x + count r

  abbrev pub count_above : List (Crumb A) → ℕ
  count_above [] = 0
  count_above (from_left p s ∷ c) = one p + count s + count_above c
  count_above (from_right s p ∷ c) = one p + count s + count_above c

  abbrev pub count_at : Place A → ℕ
  count_at w = count w.left + one w.elem + count w.right + count_above w.above

  pub count-plug : (t : Tree A) (c : List (Crumb A)) → count (plug t c) ≡ count t + count_above c
  unfolding plug
  count-plug t [] = omega arith
  count-plug t (from_left p s ∷ c) = omega (arith, count-plug (node t p s) c)
  count-plug t (from_right s p ∷ c) = omega (arith, count-plug (node s p t) c)

  module _ (less_than : A → A → Bool) where
    pub count-walk_up :
        (l : Tree A) (x : A) (r : Tree A) (c : List (Crumb A))
        → count (walk_up less_than l x r c) ≡ count l + one x + count r + count_above c
    unfolding walk_up
    count-walk_up l x r [] = omega arith
    count-walk_up l x r (from_left p s ∷ c) = elim (Bool-cases (less_than x p)) [
      | inl e ↦ rw e (omega (arith, count-walk_up (node l p r) x s c))
      | inr e ↦ rw e (omega (arith, count-plug (node l x r) (from_left p s ∷ c)))
    ]
    count-walk_up l x r (from_right s p ∷ c) = elim (Bool-cases (less_than x p)) [
      | inl e ↦ rw e (omega (arith, count-walk_up s x (node l p r) c))
      | inr e ↦ rw e (omega (arith, count-plug (node l x r) (from_right s p ∷ c)))
    ]

    -- The walk down trades the old root for the node.
    pub count-walk_down :
        (x : A) (l : Tree A) (y : A) (r : Tree A) (c : List (Crumb A))
        → count_at (walk_down less_than x (node l y r) c)
          ≡ count l + one x + count r + count_above c
    count-walk_down x l y r c =
        walk_down_inv less_than x
          (λ t c'. count_at (stop_at x t c') ≡ count l + one x + count r + count_above c)
          (λ w. count_at w ≡ count l + one x + count r + count_above c) (λ t c' h. h)
          (λ l' y' r' c' a e h. left l' y' r' c' a e h)
          (λ l' y' r' c' b e h. right l' y' r' c' b e h) (node l y r) c refl
      where
        left :
            (l' : Tree A) (y' : A) (r' : Tree A) (c' : List (Crumb A)) (a : A)
            → root l' ≡ some a
            → count_at (stop_at x (node l' y' r') c') ≡ count l + one x + count r + count_above c
            → count_at (stop_at x l' (from_left a r' ∷ c'))
              ≡ count l + one x + count r + count_above c
        left null y' r' c' a e h = cc
        left (node l2 z r2) y' r' c' a e h = ground arith

        right :
            (l' : Tree A) (y' : A) (r' : Tree A) (c' : List (Crumb A)) (b : A)
            → root r' ≡ some b
            → count_at (stop_at x (node l' y' r') c') ≡ count l + one x + count r + count_above c
            → count_at (stop_at x r' (from_right l' b ∷ c'))
              ≡ count l + one x + count r + count_above c
        right l' y' null c' b e h = cc
        right l' y' (node l2 z r2) c' b e h = ground arith
