-- ===== src/Heap/Order.antt =====
-- heap-inl.h: the heap order.
use mathlib.Core.Path.{subst}
use sebbu_c_libuv.Base.{some, ◌≡◌, refl, Bool, true, false, List, [], ◌∷◌, inl, inr, Bool-cases}
use sebbu_c_libuv.Heap.Walk.{root}
use sebbu_c_libuv.Heap.{
  Tree, null, node, Crumb, from_left, from_right, parent, Place, plug, walk_up, Smallest, itself,
  the_left, the_right, smallest, walk_down,
}

-- What the heap asks of `less_than`: `less_than b a ≡ false` is a total preorder `a ≤ b`.
pub record IsLessThan {ℓ} {A : Type ℓ} (less_than : A → A → Bool) : Type ℓ where
  pub asym : (a b : A) → less_than a b ≡ true → less_than b a ≡ false
  pub trans : (a b c : A) → less_than b a ≡ false → less_than c b ≡ false → less_than c a ≡ false

module _ {ℓ} {A : Type ℓ} (less_than : A → A → Bool) where
  -- No node of the tree's top is less than `x`.
  abbrev pub IsAbove : A → Tree A → Type 0
  IsAbove x null = Unit
  IsAbove x (node l y r) = less_than y x ≡ false

  abbrev pub IsOrdered : Tree A → Type 0
  IsOrdered null = Unit
  IsOrdered (node l x r) = IsAbove x l × IsAbove x r × IsOrdered l × IsOrdered r

  -- The same of the top of a tree and of a node that stand below the crumbs.
  abbrev pub IsUnder : List (Crumb A) → Tree A → Type 0
  IsUnder [] t = Unit
  IsUnder (p ∷ c) t = IsAbove (parent p) t

  abbrev pub IsNodeUnder : List (Crumb A) → A → Type 0
  IsNodeUnder [] x = Unit
  IsNodeUnder (p ∷ c) x = less_than x (parent p) ≡ false

  abbrev pub IsOrderedAbove : List (Crumb A) → Type 0
  IsOrderedAbove [] = Unit
  IsOrderedAbove (from_left p s ∷ c) =
      IsAbove p s × IsOrdered s × IsNodeUnder c p × IsOrderedAbove c
  IsOrderedAbove (from_right s p ∷ c) =
      IsAbove p s × IsOrdered s × IsNodeUnder c p × IsOrderedAbove c

  -- A node whose subtrees are in order, below and on both sides of it; only the node itself may be
  -- out of order with its parent.
  pub record IsSettled (l : Tree A) (x : A) (r : Tree A) (c : List (Crumb A)) : Type 0 where
    pub left : IsAbove x l
    pub right : IsAbove x r
    pub in_left : IsOrdered l
    pub in_right : IsOrdered r
    pub left_under : IsUnder c l
    pub right_under : IsUnder c r
    pub above : IsOrderedAbove c

  pub plug-IsOrdered :
      (t : Tree A) (c : List (Crumb A))
      → IsOrdered t
      → IsUnder c t
      → IsOrderedAbove c
      → IsOrdered (plug t c)
  unfolding plug
  plug-IsOrdered t [] h u a = h
  plug-IsOrdered t (from_left p s ∷ []) h u a = (u, a.0, h, a.1)
  plug-IsOrdered t (from_left p s ∷ q ∷ c) h u a =
      plug-IsOrdered (node t p s) (q ∷ c) (u, a.0, h, a.1) a.2 a.3
  plug-IsOrdered t (from_right s p ∷ []) h u a = (a.0, u, a.1, h)
  plug-IsOrdered t (from_right s p ∷ q ∷ c) h u a =
      plug-IsOrdered (node s p t) (q ∷ c) (a.0, u, a.1, h) a.2 a.3

  pub node_under :
      (l : Tree A) (x : A) (r : Tree A) (c : List (Crumb A))
      → IsUnder c (node l x r)
      → IsNodeUnder c x
  node_under l x r [] h = tt
  node_under l x r (p ∷ c) h = h

  node-IsUnder :
      (l : Tree A) (x : A) (r : Tree A) (c : List (Crumb A))
      → IsNodeUnder c x
      → IsUnder c (node l x r)
  node-IsUnder l x r [] h = tt
  node-IsUnder l x r (p ∷ c) h = h

  pub null-IsUnder : (c : List (Crumb A)) → IsUnder c null
  null-IsUnder [] = tt
  null-IsUnder (p ∷ c) = tt

  pub unplug-IsOrdered :
      (t : Tree A) (c : List (Crumb A))
      → IsOrdered (plug t c)
      → IsOrdered t × IsUnder c t × IsOrderedAbove c
  unfolding plug
  unplug-IsOrdered t [] h = (h, tt, tt)
  unplug-IsOrdered t (from_left p s ∷ c) h =
      let (o, u, a) = unplug-IsOrdered (node t p s) c h in
      (o.2, o.0, (o.1, o.3, node_under t p s c u, a))
  unplug-IsOrdered t (from_right s p ∷ c) h =
      let (o, u, a) = unplug-IsOrdered (node s p t) c h in
      (o.3, o.1, (o.0, o.2, node_under s p t c u, a))

module _ {ℓ} {A : Type ℓ} {less_than : A → A → Bool} (order : IsLessThan less_than) where
  IsAbove-trans :
      (x y : A) (t : Tree A) → less_than y x ≡ false → IsAbove less_than y t → IsAbove less_than x t
  IsAbove-trans x y null h a = tt
  IsAbove-trans x y (node l z r) h a = order.trans x y z h a

  pub IsUnder-trans :
      (y : A) (t : Tree A) (c : List (Crumb A))
      → IsNodeUnder less_than c y
      → IsAbove less_than y t
      → IsUnder less_than c t
  IsUnder-trans y t [] h a = tt
  IsUnder-trans y t (p ∷ c) h a = IsAbove-trans (parent p) y t h a

  -- The walk up puts a settled node in order.
  pub walk_up-IsOrdered :
      (l : Tree A) (x : A) (r : Tree A) (c : List (Crumb A))
      → IsSettled less_than l x r c
      → IsOrdered less_than (walk_up less_than l x r c)
  unfolding walk_up
  walk_up-IsOrdered l x r [] s = (s.left, s.right, s.in_left, s.in_right)
  walk_up-IsOrdered l x r (from_left p t ∷ c) s = elim (Bool-cases (less_than x p)) [
    | inl e ↦
        let below : less_than p x ≡ false = order.asym x p e in
        rw e (
          walk_up-IsOrdered (node l p r) x t c (record {
            left = below;
            right = IsAbove-trans x p t below s.above.0;
            in_left = (s.left_under, s.right_under, s.in_left, s.in_right);
            in_right = s.above.1;
            left_under = node-IsUnder less_than l p r c s.above.2;
            right_under = IsUnder-trans p t c s.above.2 s.above.0;
            above = s.above.3;
          }))
    | inr e ↦ rw e (
        plug-IsOrdered less_than (node l x r) (from_left p t ∷ c)
          (s.left, s.right, s.in_left, s.in_right) e s.above)
  ]
  walk_up-IsOrdered l x r (from_right t p ∷ c) s = elim (Bool-cases (less_than x p)) [
    | inl e ↦
        let below : less_than p x ≡ false = order.asym x p e in
        rw e (
          walk_up-IsOrdered t x (node l p r) c (record {
            left = IsAbove-trans x p t below s.above.0;
            right = below;
            in_left = s.above.1;
            in_right = (s.left_under, s.right_under, s.in_left, s.in_right);
            left_under = IsUnder-trans p t c s.above.2 s.above.0;
            right_under = node-IsUnder less_than l p r c s.above.2;
            above = s.above.3;
          }))
    | inr e ↦ rw e (
        plug-IsOrdered less_than (node l x r) (from_right t p ∷ c)
          (s.left, s.right, s.in_left, s.in_right) e s.above)
  ]

  -- What the two tests of the walk down find out.
  data Picked (x : A) (l r : Tree A) : Smallest A → Type ℓ where
    stays : IsAbove less_than x l → IsAbove less_than x r → Picked x l r itself
    goes_left : {a : A} → root l ≡ some a → IsAbove less_than a r → Picked x l r (the_left a)
    goes_right : {b : A} → root r ≡ some b → IsAbove less_than b l → Picked x l r (the_right b)

  smallest-Picked : (x : A) (l r : Tree A) → Picked x l r (smallest less_than x l r)
  unfolding smallest
  smallest-Picked x null null = stays tt tt
  smallest-Picked x null (node _ b _) = elim (Bool-cases (less_than b x)) [
    | inl e ↦ rw e (goes_right refl tt)
    | inr e ↦ rw e (stays tt e)
  ]
  smallest-Picked x (node _ a _) null = elim (Bool-cases (less_than a x)) [
    | inl e ↦ rw e (goes_left refl tt)
    | inr e ↦ rw e (stays e tt)
  ]
  smallest-Picked x (node _ a _) (node _ b _) = elim (Bool-cases (less_than a x)) [
    | inl ea ↦ elim (Bool-cases (less_than b a)) [
      | inl e ↦ rw (ea, e) (goes_right refl (order.asym b a e))
      | inr e ↦ rw (ea, e) (goes_left refl e)
    ]
    | inr ea ↦ elim (Bool-cases (less_than b x)) [
      | inl e ↦ rw (ea, e) (goes_right refl (order.trans b x a (order.asym b x e) ea))
      | inr e ↦ rw (ea, e) (stays ea e)
    ]
  ]

  -- A subtree that is in order but for its root, which is to be replaced.
  abbrev pub IsVacant : Tree A → List (Crumb A) → Type 0
  IsVacant null c = Unit
  IsVacant (node l y r) c =
      IsOrdered less_than l × IsOrdered less_than r × IsUnder less_than c l × IsUnder less_than c r

  root-IsVacant :
      (t : Tree A) (p : Crumb A) (c : List (Crumb A))
      → root t ≡ some (parent p)
      → IsOrdered less_than t
      → IsVacant t (p ∷ c)
  root-IsVacant null p c e o = tt
  root-IsVacant (node l y r) p c e o =
      let same : y ≡ parent p = cc in
      (
        o.2,
        o.3,
        subst (λ z. IsAbove less_than z l) same o.0,
        subst (λ z. IsAbove less_than z r) same o.1,
      )

  root-IsNodeUnder :
      (t : Tree A) (a : A) (c : List (Crumb A))
      → root t ≡ some a
      → IsUnder less_than c t
      → IsNodeUnder less_than c a
  root-IsNodeUnder null a c e u = cc
  root-IsNodeUnder (node l y r) a c e u =
      let same : y ≡ a = cc in
      subst (λ z. IsNodeUnder less_than c z) same (node_under less_than l y r c u)

  abbrev IsSettledAt : Place A → Type 0
  IsSettledAt w = IsSettled less_than w.left w.elem w.right w.above

  -- Going down a side puts the smallest child above a vacant place.
  step_left-above :
      (l r : Tree A) (a : A) (c : List (Crumb A))
      → root l ≡ some a
      → IsAbove less_than a r
      → IsVacant (node l a r) c
      → IsOrderedAbove less_than c
      → IsVacant l (from_left a r ∷ c) × IsOrderedAbove less_than (from_left a r ∷ c)
  step_left-above l r a c e u v o =
      (root-IsVacant l (from_left a r) c e v.0, (u, v.1, root-IsNodeUnder l a c e v.2, o))

  step_right-above :
      (l r : Tree A) (b : A) (c : List (Crumb A))
      → root r ≡ some b
      → IsAbove less_than b l
      → IsVacant (node l b r) c
      → IsOrderedAbove less_than c
      → IsVacant r (from_right l b ∷ c) × IsOrderedAbove less_than (from_right l b ∷ c)
  step_right-above l r b c e u v o =
      (root-IsVacant r (from_right l b) c e v.1, (u, v.0, root-IsNodeUnder r b c e v.3, o))

  -- The walk down ends at a place where the node is settled.
  pub walk_down-IsSettled :
      (x : A) (t : Tree A) (c : List (Crumb A))
      → IsVacant t c
      → IsOrderedAbove less_than c
      → IsSettledAt (walk_down less_than x t c)
  unfolding walk_down
  walk_down-IsSettled x null c v o = record {
    left = tt;
    right = tt;
    in_left = tt;
    in_right = tt;
    left_under = null-IsUnder less_than c;
    right_under = null-IsUnder less_than c;
    above = o;
  }
  walk_down-IsSettled x (node l y r) c v o =
      go (smallest less_than x l r) (smallest-Picked x l r) (walk_down-IsSettled x l)
        (walk_down-IsSettled x r)
    where
      go :
          (s : Smallest A)
          → Picked x l r s
          → ((c : List (Crumb A))
              → IsVacant l c
              → IsOrderedAbove less_than c
              → IsSettledAt (walk_down less_than x l c))
          → ((c : List (Crumb A))
              → IsVacant r c
              → IsOrderedAbove less_than c
              → IsSettledAt (walk_down less_than x r c))
          → IsSettledAt (elim s [
            | itself ↦ record { left = l; elem = x; right = r; above = c }
            | the_left a ↦ walk_down less_than x l (from_left a r ∷ c)
            | the_right b ↦ walk_down less_than x r (from_right l b ∷ c)
          ])
      go itself (stays p q) left right = record {
        left = p;
        right = q;
        in_left = v.0;
        in_right = v.1;
        left_under = v.2;
        right_under = v.3;
        above = o;
      }
      go (the_left a) (goes_left e u) left right =
          let (v', o') = step_left-above l r a c e u v o in left (from_left a r ∷ c) v' o'
      go (the_right b) (goes_right e u) left right =
          let (v', o') = step_right-above l r b c e u v o in right (from_right l b ∷ c) v' o'
