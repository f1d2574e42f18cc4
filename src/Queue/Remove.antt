-- ===== src/Queue/Remove.antt =====
-- queue.h: uv__queue_remove.
use mathlib.Core.List.{append-nil}
use sebbu_c_libuv.Base.{◌≡◌, refl, List, [], ◌∷◌, ◌++◌, arith, ◌==◌, if◌then◌else◌}
use sebbu_c_libuv.Queue.{Ptr, Memory, update, remove}
use sebbu_c_libuv.Queue.Ring.{
  ◌∈◌, ◌∉◌, IsDistinct, IsChain, IsQueue, has-append, IsChain-append, IsChain-frame,
  IsChain-retarget, IsChain-split, last, prev-last, last-mem, IsDistinct-append, IsDistinct-split,
  SameOutside,
}

update_at_self : (f : Ptr → Ptr) (p q : Ptr) → update f p (f q) q ≡ f q
update_at_self f p q = ground arith

remove-next :
    (q : Ptr) (m : Memory) (a : Ptr)
    → (remove q m).next a ≡ (if a == m.prev q then m.next q else m.next a)
unfolding remove
remove-next q m a = refl

remove-prev :
    (q : Ptr) (m : Memory) (a : Ptr)
    → (remove q m).prev a ≡ (if a == m.next q then m.prev q else m.prev a)
unfolding remove
remove-prev q m a = rw (update_at_self m.next (m.prev q) q)

next_mem_of :
    (m : Memory) (q : Ptr) (ys : List Ptr) (h : Ptr) → IsChain m q ys h → m.next q ∈ h ∷ ys
next_mem_of m q [] h c = ground (arith, c.0)
next_mem_of m q (y ∷ ys) h c = ground (arith, c.0)

module _ (m : Memory) (h q : Ptr) (xs : List Ptr) where
  remove-IsChain :
      (ys : List Ptr)
      → IsChain m h xs q
      → IsChain m q ys h
      → IsDistinct (h ∷ xs)
      → IsDistinct (q ∷ ys)
      → ((a : Ptr) → a ∈ h ∷ xs → a ∉ q ∷ ys)
      → IsChain (remove q m) h (xs ++ ys) h
  remove-IsChain [] c d dx dy apart =
      let e = prev-last m h xs q c in
      rw append-nil (
        IsChain-retarget m (remove q m) h xs q h dx (λ a i n. ground (arith, remove-next q m a))
          (λ a i. ground (arith, remove-prev q m a, d.0, dx.0))
          (ground (arith, remove-next q m (last h xs), d.0))
          (ground (arith, remove-prev q m h, d.0)) c)
  remove-IsChain (y ∷ ys) c d dx dy apart =
      let e = prev-last m h xs q c in
      IsChain-append (remove q m) h xs y ys h
        (IsChain-retarget m (remove q m) h xs q y dx (λ a i n. ground (arith, remove-next q m a))
          (λ a i. ground (arith, remove-prev q m a, d.0, apart a))
          (ground (arith, remove-next q m (last h xs), d.0))
          (ground (arith, remove-prev q m y, d.0)) c)
        (IsChain-frame m (remove q m) y ys h
          (λ a i. ground (arith, remove-next q m a, apart (last h xs), last-mem h xs))
          (λ a i. ground (arith, remove-prev q m a, d.0, has-append a ys (h ∷ []), dy.1.0, apart h))
          d.2)

  -- `uv__queue_remove` takes a node out of the queue that holds it, keeps the order of the others,
  -- and changes no node outside.
  pub remove-IsQueue :
      (ys : List Ptr)
      → IsQueue m h (xs ++ q ∷ ys)
      → IsQueue (remove q m) h (xs ++ ys) × SameOutside (h ∷ xs ++ q ∷ ys) m (remove q m)
  remove-IsQueue ys v =
      let (c, d) = IsChain-split m h xs q ys h v.chain in
      let (dx, dy, apart) = IsDistinct-split (h ∷ xs) (q ∷ ys) v.distinct in
      (
        record {
          chain = remove-IsChain ys c d dx dy apart;
          distinct = IsDistinct-append (h ∷ xs) ys dx dy.1 (λ a i. ground (arith, apart a));
        },
        record {
          next = λ a o. ground (
            arith,
            remove-next q m a,
            prev-last m h xs q c,
            last-mem h xs,
            has-append a (h ∷ xs) (q ∷ ys),
          );
          prev = λ a o.
              ground
                (arith, remove-prev q m a, next_mem_of m q ys h d, has-append a (h ∷ xs) (q ∷ ys));
        },
      )

-- On a node alone in its queue, `uv__queue_remove` changes nothing.
pub remove-alone :
    (q a : Ptr) (m : Memory)
    → IsQueue m q []
    → ((remove q m).next a ≡ m.next a) × ((remove q m).prev a ≡ m.prev a)
remove-alone q a m v = (
  ground (arith, remove-next q m a, v.chain.0, v.chain.1),
  ground (arith, remove-prev q m a, v.chain.0, v.chain.1),
)
