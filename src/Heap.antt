-- ===== src/Heap.antt =====
-- heap-inl.h: the intrusive binary min heap.
--
-- The nodes linked by left, right and parent pointers are a tree, and a pointer into it is a place:
-- the subtree below it with the crumbs on the way to the root, which is what following `parent`
-- visits. A node is its identity, of any type `A`; `less_than` compares two nodes. `none` is a read
-- through a NULL pointer.

pub mod Agree
pub mod Contents
pub mod Insert
pub mod Min
pub mod Order
pub mod Path
pub mod Remove
pub mod Shape
mod Tests
pub mod Walk
use sebbu_c_libuv.Base.{
  ℕ, zero, suc, ◌+◌, ◌-◌, ◌*◌, ◌/◌, ◌%◌, ◌^◌, Bool, Option, none, some, List, [], ◌∷◌, leb, ◌==◌,
  if◌then◌else◌,
}

-- `struct heap_node`, with the trees that `left` and `right` point at.
pub data Tree {ℓ} (A : Type ℓ) : Type ℓ where
  null : Tree A
  node : Tree A → A → Tree A → Tree A

-- One step towards the root: the parent and its other child. `from_left` is a step from the left.
pub data Crumb {ℓ} (A : Type ℓ) : Type ℓ where
  from_left : A → Tree A → Crumb A
  from_right : Tree A → A → Crumb A

-- A node in its tree.
pub record Place {ℓ} (A : Type ℓ) : Type ℓ where
  pub left : Tree A
  pub elem : A
  pub right : Tree A
  pub above : List (Crumb A)

-- `struct heap`
pub record Heap {ℓ} (A : Type ℓ) : Type ℓ where
  pub min : Tree A
  pub nelts : ℕ

abbrev u32 : ℕ → ℕ
u32 n = n % 2 ^ 32

-- `for (k = 0; n >= 2; k += 1, n /= 2) path = (path << 1) | (n & 1);`, on `fuel` rounds: the number
-- of bits and the bits.
unfoldable pub path_loop : (fuel k n path : ℕ) → ℕ × ℕ
path_loop zero k n path = (k, path)
path_loop (suc fuel) k n path =
    let rest = path_loop fuel (k + 1) (n / 2) (u32 (path * 2 + n % 2)) in
    if leb 2 n then rest else (k, path)

unfoldable pub path_to : ℕ → ℕ × ℕ
unfolding path_loop
path_to n = path_loop n 0 n 0

module _ {ℓ} {A : Type ℓ} where
  abbrev pub heap_init : Heap A
  heap_init = record { min = null; nelts = 0 }

  unfoldable pub heap_min : Heap A → Option A
  heap_min h = elim (h.min) [ null ↦ none | node l x r ↦ some x ]

  -- The tree of which `t` is the subtree below `above`.
  unfoldable pub plug : Tree A → List (Crumb A) → Tree A
  plug t [] = t
  plug t (from_left p s ∷ c) = plug (node t p s) c
  plug t (from_right s p ∷ c) = plug (node s p t) c

  -- `while (k > 0)`: the walk along the path.
  unfoldable pub descend : (k path : ℕ) → Tree A → List (Crumb A) → Option (Tree A × List (Crumb A))
  descend zero path t c = some (t, c)
  descend (suc k) path null c = none
  descend (suc k) path (node l x r) c =
      let to_right = descend k (path / 2) r (from_right l x ∷ c) in
      let to_left = descend k (path / 2) l (from_left x r ∷ c) in
      if path % 2 == 1 then to_right else to_left

  -- heap_node_swap with the parent, which is the crumb: the node moves to the parent's place and the
  -- parent to the node's, above the node's former children.
  abbrev pub heap_node_swap : Tree A → A → Tree A → Crumb A → List (Crumb A) → Place A
  heap_node_swap l x r (from_left p s) c = record {
    left = node l p r;
    elem = x;
    right = s;
    above = c;
  }
  heap_node_swap l x r (from_right s p) c = record {
    left = s;
    elem = x;
    right = node l p r;
    above = c;
  }

  -- `node->parent`
  abbrev pub parent : Crumb A → A
  parent (from_left p s) = p
  parent (from_right s p) = p

-- The child that goes up, or none.
pub data Smallest {ℓ} (A : Type ℓ) : Type ℓ where
  itself : Smallest A
  the_left : A → Smallest A
  the_right : A → Smallest A

module _ {ℓ} {A : Type ℓ} (less_than : A → A → Bool) where
  -- `while (node->parent != NULL && less_than(node, node->parent)) heap_node_swap(...)`
  unfoldable pub walk_up : Tree A → A → Tree A → List (Crumb A) → Tree A
  unfolding plug
  walk_up l x r [] = node l x r
  walk_up l x r (p ∷ c) =
      let q = heap_node_swap l x r p c in
      let swapped = walk_up q.left x q.right c in
      if less_than x (parent p) then swapped else plug (node l x r) (p ∷ c)

  unfoldable pub heap_insert : Heap A → A → Option (Heap A)
  unfolding path_to descend walk_up
  heap_insert h x =
      let (k, path) = path_to (u32 (1 + h.nelts)) in
      elim (descend k path h.min []) [
        | none ↦ none
        | some (t, c) ↦ some (record { min = walk_up null x null c; nelts = u32 (h.nelts + 1) })
      ]

  -- The two tests of `for (;;)` on the node `x` above `l` and `r`.
  unfoldable pub smallest : A → Tree A → Tree A → Smallest A
  smallest x null null = itself
  smallest x null (node _ b _) = if less_than b x then the_right b else itself
  smallest x (node _ a _) null = if less_than a x then the_left a else itself
  smallest x (node _ a _) (node _ b _) =
      if less_than a x
      then (if less_than b a then the_right b else the_left a)
      else (if less_than b x then the_right b else itself)

  -- The walk down of `x`, which stands in the place of the root of the given tree.
  unfoldable pub walk_down : A → Tree A → List (Crumb A) → Place A
  unfolding smallest
  walk_down x null c = record { left = null; elem = x; right = null; above = c }
  walk_down x (node l y r) c = elim (smallest x l r) [
    | itself ↦ record { left = l; elem = x; right = r; above = c }
    | the_left a ↦ walk_down x l (from_left a r ∷ c)
    | the_right b ↦ walk_down x r (from_right l b ∷ c)
  ]

module _ {ℓ} {A : Type ℓ} (same : A → A → Bool) where
  -- The place of the node that the caller's pointer names; the pointer itself stands for it in C.
  unfoldable pub find : A → Tree A → List (Crumb A) → Option (Place A)
  find x null c = none
  find x (node l y r) c =
      let in_left = find x l (from_left y r ∷ c) in
      let in_right = find x r (from_right l y ∷ c) in
      if same x y
      then some (record { left = l; elem = y; right = r; above = c })
      else elim in_left [ some z ↦ some z | none ↦ in_right ]

module _ {ℓ} {A : Type ℓ} (same less_than : A → A → Bool) where
  -- `child` takes the place of the removed node, and walks down and then up.
  unfoldable pub put_back : A → Place A → Tree A
  unfolding walk_down walk_up
  put_back child z =
      let w = walk_down less_than child (node z.left z.elem z.right) z.above in
      walk_up less_than w.left w.elem w.right w.above

  -- `*max = NULL` cuts the last node, which must have no children (they would be lost), out of
  -- the tree; what follows depends on whether it is the node to be removed.
  unfoldable pub heap_remove : Heap A → A → Option (Heap A)
  unfolding path_to descend plug find put_back
  heap_remove h x =
      if h.nelts == 0
      then some h
      else let (k, path) = path_to h.nelts in
        elim (descend k path h.min []) [
          | none ↦ none
          | some (null, c) ↦ none
          | some (node _ child _, c) ↦
              let rest = plug null c in
              if same child x
              then some (record { min = rest; nelts = h.nelts - 1 })
              else elim (find same x rest []) [
                | none ↦ none
                | some z ↦ some (record { min = put_back child z; nelts = h.nelts - 1 })
              ]
        ]

  unfoldable pub heap_dequeue : Heap A → Option (Heap A)
  unfolding heap_remove heap_min
  heap_dequeue h = elim (heap_min h) [
    | none ↦ if h.nelts == 0 then some h else none
    | some x ↦ heap_remove h x
  ]
