-- ===== src/Heap/Agree.antt =====
-- heap-inl.h: the heap order depends on `less_than` only at the nodes of the heap.
use sebbu_c_libuv.Base.{◌<◌, ◌≡◌, ◌∙◌, Bool, true, arith}
use sebbu_c_libuv.Heap.{Tree, null, node, Heap}
use sebbu_c_libuv.Heap.Order.{IsAbove, IsOrdered}
use sebbu_c_libuv.Heap.Contents.{count}
use sebbu_c_libuv.Heap.Insert.{IsHeap}

module _ {ℓ} {A : Type ℓ} (same less_than less_than' : A → A → Bool)
    (same_refl : (a : A) → same a a ≡ true) where
  -- The two tests agree on the nodes of the tree.
  abbrev pub Agree : Tree A → Type ℓ
  Agree t = (a b : A) → 0 < count (same a) t → 0 < count (same b) t → less_than' a b ≡ less_than a b

  Agree-IsAbove :
      (x : A) (t : Tree A)
      → ((a : A) → 0 < count (same a) t → less_than' a x ≡ less_than a x)
      → IsAbove less_than x t
      → IsAbove less_than' x t
  Agree-IsAbove x null h a = tt
  Agree-IsAbove x (node l y r) h a = h y (rw (same_refl y) (omega arith)) ∙ a

  pub Agree-IsOrdered : (t : Tree A) → Agree t → IsOrdered less_than t → IsOrdered less_than' t
  Agree-IsOrdered null h o = tt
  Agree-IsOrdered (node l x r) h o =
      let here : 0 < count (same x) (node l x r) = rw (same_refl x) (omega arith) in
      (
        Agree-IsAbove x l (λ a i. h a x (omega arith) here) o.0,
        Agree-IsAbove x r (λ a i. h a x (omega arith) here) o.1,
        Agree-IsOrdered l (λ a b i j. h a b (omega arith) (omega arith)) o.2,
        Agree-IsOrdered r (λ a b i j. h a b (omega arith) (omega arith)) o.3,
      )

  pub Agree-IsHeap : (h : Heap A) → Agree h.min → IsHeap less_than h → IsHeap less_than' h
  Agree-IsHeap h a v = record {
    complete = v.complete;
    ordered = Agree-IsOrdered h.min a v.ordered;
    fits = v.fits;
  }
