-- ===== src/Heap/Insert.antt =====
-- heap-inl.h: the heap invariant, and `heap_insert`.
use native.Mathlib.Numerals.{add-one}
use sebbu_c_libuv.Base.{◌+◌, ◌^◌, ◌%◌, ◌<◌, ◌≡◌, refl, ap, Bool, Option, some, List, [], arith}
use sebbu_c_libuv.Heap.{
  Tree, null, node, Crumb, Heap, path_to, plug, descend, walk_up, heap_init, heap_insert,
}
use sebbu_c_libuv.Heap.Shape.{IsComplete, grow, walk_up-IsComplete}
use sebbu_c_libuv.Heap.Path.{path_to-target, Reached, descend-Reached}
use sebbu_c_libuv.Heap.Order.{
  IsLessThan, IsOrdered, null-IsUnder, unplug-IsOrdered, walk_up-IsOrdered,
}
use sebbu_c_libuv.Heap.Contents.{one, count, count-plug, count-walk_up}

-- The tree is complete and in order, and `nelts` is its size.
pub record IsHeap {ℓ} {A : Type ℓ} (less_than : A → A → Bool) (h : Heap A) : Type 0 where
  pub complete : IsComplete h.nelts 1 h.min
  pub ordered : IsOrdered less_than h.min
  pub fits : h.nelts < 2 ^ 32

module _ {ℓ} {A : Type ℓ} (less_than : A → A → Bool) where
  pub heap_init-IsHeap : IsHeap less_than heap_init
  heap_init-IsHeap = record { complete = omega arith; ordered = tt; fits = omega arith }

  -- The heap `g` holds the nodes of `h` and one more, `x`.
  pub record Inserted (h : Heap A) (x : A) (g : Heap A) : Type ℓ where
    pub valid : IsHeap less_than g
    pub size : g.nelts ≡ h.nelts + 1
    pub contents : (q : A → Bool) → count q g.min ≡ count q h.min + one q x

module _ {ℓ} {A : Type ℓ} {less_than : A → A → Bool} (order : IsLessThan less_than) where
  -- A new node in the free place that the path leads to.
  insert_at :
      (h : Heap A) (x : A) {r : Option (Tree A × List (Crumb A))}
      → IsHeap less_than h
      → h.nelts + 1 < 2 ^ 32
      → (reached : Reached h.nelts (h.nelts + 1) (h.nelts + 1) h.min r)
      → Inserted less_than h x
          (record { min = walk_up less_than null x null reached.above; nelts = h.nelts + 1 })
  insert_at h x v room reached = go reached.at reached.complete reached.tree
    where
      go :
          (t : Tree A)
          → IsComplete h.nelts (h.nelts + 1) t
          → plug t reached.above ≡ h.min
          → Inserted less_than h x
              (record { min = walk_up less_than null x null reached.above; nelts = h.nelts + 1 })
      go (node l y r) c e = absurd (omega arith)
      go null c e = record {
        valid = record {
          complete =
              walk_up-IsComplete less_than (h.nelts + 1) null x null reached.above
                (omega (arith, reached.numbered)) reached.others;
          ordered =
              let (_, _, above) = unplug-IsOrdered less_than null reached.above (rw e v.ordered) in
              walk_up-IsOrdered order null x null reached.above (record {
                left = tt;
                right = tt;
                in_left = tt;
                in_right = tt;
                left_under = null-IsUnder less_than reached.above;
                right_under = null-IsUnder less_than reached.above;
                above = above;
              });
          fits = room;
        };
        size = refl;
        contents = λ q. omega (
          arith,
          ap (count q) e,
          count-plug q null reached.above,
          count-walk_up q less_than null x null reached.above,
        );
      }

  heap_insert_run :
      (h : Heap A) (x : A) (t : Tree A) (c : List (Crumb A))
      → h.nelts + 1 < 2 ^ 32
      → (let (k, path) = path_to (h.nelts + 1) in descend k path h.min []) ≡ some (t, c)
      → heap_insert less_than h x
        ≡ some (record { min = walk_up less_than null x null c; nelts = h.nelts + 1 })
  unfolding heap_insert
  heap_insert_run h x t c room e =
      let size : (1 + h.nelts) % 2 ^ 32 ≡ h.nelts + 1 = omega arith in
      let size' : (h.nelts + 1) % 2 ^ 32 ≡ h.nelts + 1 = omega arith in
      rw (heap_insert, size, e, size')

  -- Into a heap with room `heap_insert` finds the first free place without running into NULL, and
  -- the result is a heap of the same nodes and the new one.
  pub heap_insert-Inserted :
      (h : Heap A) (x : A)
      → IsHeap less_than h
      → h.nelts + 1 < 2 ^ 32
      → (g : Heap A) × (heap_insert less_than h x ≡ some g) × Inserted less_than h x g
  unfolding plug
  heap_insert-Inserted h x v room =
      let n = h.nelts + 1 in
      let reached =
        descend-Reached h.nelts n n (rw (add-one h.nelts) (grow h.nelts)) (omega arith)
          (omega arith) (path_to n).0 (path_to n).1 h.min [] (path_to-target n (omega arith) room)
          (omega arith) v.complete tt in
      (
        record { min = walk_up less_than null x null reached.above; nelts = n },
        heap_insert_run h x reached.at reached.above room reached.ends,
        insert_at h x v room reached,
      )
