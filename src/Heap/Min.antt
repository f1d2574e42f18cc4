-- ===== src/Heap/Min.antt =====
-- heap-inl.h: `heap_min` and `heap_dequeue`.
use sebbu_c_libuv.Base.{
  ℕ, ◌<◌, ◌≡◌, ◌↔◌, refl, Bool, true, false, some, none, arith, inl, inr, Bool-cases, ltb,
}
use sebbu_c_libuv.Heap.{Tree, null, node, Heap, heap_min, heap_dequeue}
use sebbu_c_libuv.Heap.Order.{IsLessThan, IsAbove, IsOrdered}
use sebbu_c_libuv.Heap.Contents.{count}
use sebbu_c_libuv.Heap.Insert.{IsHeap}
use sebbu_c_libuv.Heap.Remove.{Removed, heap_remove-Removed}

-- A node of the heap such that no node of the heap is less.
abbrev pub IsLeast {ℓ} : {A : Type ℓ} → (A → A → Bool) → (A → A → Bool) → Heap A → A → Type ℓ
IsLeast same less_than h x =
    (0 < count (same x) h.min) × ((y : _) → 0 < count (same y) h.min → less_than y x ≡ false)

tree-none {ℓ} :
    {A : Type ℓ} (q : A → Bool) (t : Tree A) (n : ℕ)
    → heap_min (record { min = t; nelts = n }) ≡ none
    → count q t ≡ 0
unfolding heap_min
tree-none q null n e = refl
tree-none q (node l x r) n e = cc

-- Without a least node there is no node.
pub heap_min-none {ℓ} :
    {A : Type ℓ} (q : A → Bool) (h : Heap A) → heap_min h ≡ none → count q h.min ≡ 0
heap_min-none q h e = tree-none q h.min h.nelts e

module _ {ℓ} {A : Type ℓ} {same less_than : A → A → Bool} (order : IsLessThan less_than)
    (same_iff : (a b : A) → (same a b ≡ true) ↔ (a ≡ b)) where
  -- No node of an ordered tree is less than one above it.
  least_below :
      (x y : A) (t : Tree A)
      → IsOrdered less_than t
      → IsAbove less_than x t
      → 0 < count (same y) t
      → less_than y x ≡ false
  least_below x y null o a inside = absurd (omega arith)
  least_below x y (node l z r) o a inside = elim (Bool-cases (same y z)) [
    | inl e ↦ let is : y ≡ z = (same_iff y z).0 e in rw is a
    | inr e ↦ elim (Bool-cases (ltb 0 (count (same y) l))) [
      | inl in_left ↦ order.trans x z y a (least_below z y l o.2 o.0 (ground arith))
      | inr out ↦ order.trans x z y a (least_below z y r o.3 o.1 (ground arith))
    ]
  ]

  irrefl : (x : A) → less_than x x ≡ false
  irrefl x = elim (Bool-cases (less_than x x)) [ inl e ↦ order.asym x x e | inr e ↦ e ]

  same_refl : (x : A) → same x x ≡ true
  same_refl x = (same_iff x x).1 refl

  tree-IsLeast :
      (t : Tree A) (n : ℕ) (x : A)
      → IsOrdered less_than t
      → heap_min (record { min = t; nelts = n }) ≡ some x
      → IsLeast same less_than (record { min = t; nelts = n }) x
  unfolding heap_min
  tree-IsLeast null n x o e = cc
  tree-IsLeast (node l z r) n x o e =
      let is : z ≡ x = cc in
      rw (← is) (
        rw (same_refl z) (omega arith),
        λ y inside. least_below z y (node l z r) o (irrefl z) inside,
      )

  -- `heap_min` of a heap is a node of it such that no node of the heap is less.
  pub heap_min-IsLeast :
      (h : Heap A) (x : A) → IsHeap less_than h → heap_min h ≡ some x → IsLeast same less_than h x
  heap_min-IsLeast h x v e = tree-IsLeast h.min h.nelts x v.ordered e

  dequeue_tree :
      (t : Tree A) (n : ℕ)
      → IsHeap less_than (record { min = t; nelts = n })
      → 0 < n
      → (x : A) × (g : Heap A) × (heap_min (record { min = t; nelts = n }) ≡ some x)
        × (heap_dequeue same less_than (record { min = t; nelts = n }) ≡ some g)
        × Removed same less_than (record { min = t; nelts = n }) x g
  unfolding heap_min heap_dequeue
  dequeue_tree null n v pos = absurd (omega (arith, v.complete))
  dequeue_tree (node l z r) n v pos =
      let inside : 0 < count (same z) (node l z r) = rw (same_refl z) (omega arith) in
      let (g, run, removed) =
        heap_remove-Removed order same_iff (record { min = node l z r; nelts = n }) z v inside in
      (z, g, refl, run, removed)

  -- `heap_dequeue` of a heap that is not empty succeeds: it removes the node that `heap_min` gives,
  -- and no other.
  pub heap_dequeue-Removed :
      (h : Heap A)
      → IsHeap less_than h
      → 0 < h.nelts
      → (x : A) × (g : Heap A) × (heap_min h ≡ some x)
        × (heap_dequeue same less_than h ≡ some g)
        × Removed same less_than h x g
  heap_dequeue-Removed h v pos = dequeue_tree h.min h.nelts v pos
