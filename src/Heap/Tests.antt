-- ===== src/Heap/Tests.antt =====
-- heap-inl.h: runs of the heap over numbers, and the theorems at concrete heaps.
use sebbu_c_libuv.Base.{ℕ, ◌≡◌, refl, some, arith, ltb, ◌==◌, ==_iff}
use sebbu_c_libuv.Heap.{Tree, null, node, Heap, path_to, heap_min, heap_insert, heap_remove}
use sebbu_c_libuv.Heap.Order.{IsLessThan}
use sebbu_c_libuv.Heap.Insert.{IsHeap, Inserted, heap_insert-Inserted}
use sebbu_c_libuv.Heap.Remove.{Removed, heap_remove-Removed}
use sebbu_c_libuv.Heap.Min.{IsLeast, heap_min-IsLeast}

ltb-IsLessThan : IsLessThan ltb
ltb-IsLessThan = record { asym = λ a b h. ground arith; trans = λ a b c h k. ground arith }

abbrev leaf : ℕ → Tree ℕ
leaf x = node null x null

-- 1 above 4 (over 6) and 2.
abbrev four : Heap ℕ
four = record { min = node (node (leaf 6) 4 null) 1 (leaf 2); nelts = 4 }

four-IsHeap : IsHeap ltb four
four-IsHeap = record {
  complete = omega arith;
  ordered = (refl, refl, (refl, tt, (tt, tt, tt, tt), tt), (tt, tt, tt, tt));
  fits = omega arith;
}

path_to_six : path_to 6 ≡ (2, 1)
unfolding path_to
path_to_six = refl

insert_three :
    heap_insert ltb four 3
    ≡ some (record { min = node (node (leaf 6) 3 (leaf 4)) 1 (leaf 2); nelts = 5 })
unfolding heap_insert
insert_three = refl

remove_one :
    heap_remove ◌==◌ ltb four 1 ≡ some (record { min = node (leaf 4) 2 (leaf 6); nelts = 3 })
unfolding heap_remove
remove_one = refl

heap_insert-Inserted_example :
    (g : Heap ℕ) × (heap_insert ltb four 3 ≡ some g) × Inserted ltb four 3 g
heap_insert-Inserted_example = heap_insert-Inserted ltb-IsLessThan four 3 four-IsHeap (omega arith)

heap_remove-Removed_example :
    (g : Heap ℕ) × (heap_remove ◌==◌ ltb four 4 ≡ some g) × Removed ◌==◌ ltb four 4 g
heap_remove-Removed_example =
    heap_remove-Removed ltb-IsLessThan ==_iff four 4 four-IsHeap (omega arith)

heap_min-IsLeast_example : IsLeast ◌==◌ ltb four 1
unfolding heap_min
heap_min-IsLeast_example = heap_min-IsLeast ltb-IsLessThan ==_iff four 1 four-IsHeap refl
