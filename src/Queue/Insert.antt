-- ===== src/Queue/Insert.antt =====
-- queue.h: uv__queue_init, uv__queue_empty, uv__queue_head and the two insertions.
use sebbu_c_libuv.Base.{◌≡◌, ◌↔◌, refl, true, List, [], ◌∷◌, ◌++◌, arith, ◌==◌, if◌then◌else◌}
use sebbu_c_libuv.Queue.{Ptr, Memory, init, is_empty, head, update, insert_head, insert_tail}
use sebbu_c_libuv.Queue.Ring.{
  ◌∈◌, ◌∉◌, IsDistinct, IsChain, IsQueue, has-append, IsChain-append, IsChain-frame,
  IsChain-retarget, last, prev-last, last-mem, IsDistinct-append, SameOutside,
}

-- `uv__queue_init` makes an empty queue, and changes nothing else.
pub init-IsQueue :
    (q : Ptr) (m : Memory) → IsQueue (init q m) q [] × SameOutside (q ∷ []) m (init q m)
unfolding init
init-IsQueue q m = (
  record { chain = (ground arith, ground arith); distinct = (refl, tt) },
  record { next = λ a o. ground arith; prev = λ a o. ground arith },
)

-- `uv__queue_empty` says whether the queue holds nothing, and `uv__queue_head` is its first node.
pub is_empty-head :
    (m : Memory) (h : Ptr) (xs : List Ptr)
    → IsQueue m h xs
    → ((is_empty h m ≡ true) ↔ (xs ≡ [])) × ((x : Ptr) (ys : List Ptr) → xs ≡ x ∷ ys → head h m ≡ x)
unfolding is_empty head
is_empty-head m h [] v = ((λ e. refl, λ e. ground (arith, v.chain.0)), λ x ys e. cc)
is_empty-head m h (x ∷ xs) v =
    ((λ e. ground (arith, v.chain.0, v.distinct.0), λ e. cc), λ y ys e. ground (arith, v.chain.0))

pub update_self : (f : Ptr → Ptr) (p v : Ptr) → update f p v p ≡ v
update_self f p v = ground arith

-- The fields that the insertions leave behind.
insert_tail-next :
    (h q : Ptr) (m : Memory) (a : Ptr)
    → (insert_tail h q m).next a ≡ (if a == m.prev h then q else if a == q then h else m.next a)
unfolding insert_tail
insert_tail-next h q m a = rw (update_self m.prev q (m.prev h))

insert_tail-prev :
    (h q : Ptr) (m : Memory) (a : Ptr)
    → (insert_tail h q m).prev a ≡ (if a == h then q else if a == q then m.prev h else m.prev a)
unfolding insert_tail
insert_tail-prev h q m a = refl

insert_head-next :
    (h q : Ptr) (m : Memory) (a : Ptr)
    → (insert_head h q m).next a ≡ (if a == h then q else if a == q then m.next h else m.next a)
unfolding insert_head
insert_head-next h q m a = refl

insert_head-prev :
    (h q : Ptr) (m : Memory) (a : Ptr)
    → (insert_head h q m).prev a ≡ (if a == m.next h then q else if a == q then h else m.prev a)
unfolding insert_head
insert_head-prev h q m a = rw (update_self m.next q (m.next h))

next_mem_of : (m : Memory) (h : Ptr) (xs : List Ptr) → IsChain m h xs h → m.next h ∈ h ∷ xs
next_mem_of m h [] c = ground (arith, c.0)
next_mem_of m h (x ∷ xs) c = ground (arith, c.0)

module _ (m : Memory) (h q : Ptr) (xs : List Ptr) (v : IsQueue m h xs) (out : q ∉ h ∷ xs) where
  tail-IsDistinct : IsDistinct (h ∷ xs ++ q ∷ [])
  tail-IsDistinct = IsDistinct-append (h ∷ xs) (q ∷ []) v.distinct (refl, tt) (λ a i. ground arith)

  tail-IsChain : IsChain (insert_tail h q m) h (xs ++ q ∷ []) h
  tail-IsChain =
      let e = prev-last m h xs h v.chain in
      IsChain-append (insert_tail h q m) h xs q [] h
        (IsChain-retarget m (insert_tail h q m) h xs h q v.distinct
          (λ a i n. ground (arith, insert_tail-next h q m a))
          (λ a i. ground (arith, insert_tail-prev h q m a, v.distinct.0))
          (ground (arith, insert_tail-next h q m (last h xs)))
          (ground (arith, insert_tail-prev h q m q)) v.chain)
        (
          ground (arith, insert_tail-next h q m q, last-mem h xs),
          ground (arith, insert_tail-prev h q m h),
        )

  -- `uv__queue_insert_tail` puts a node that is not in the queue at its end, and changes no node
  -- outside.
  pub insert_tail-IsQueue :
      IsQueue (insert_tail h q m) h (xs ++ q ∷ [])
      × SameOutside (h ∷ xs ++ q ∷ []) m (insert_tail h q m)
  insert_tail-IsQueue =
      let e = prev-last m h xs h v.chain in
      (
        record { chain = tail-IsChain; distinct = tail-IsDistinct },
        record {
          next = λ a o.
              ground
                (arith, insert_tail-next h q m a, last-mem h xs, has-append a (h ∷ xs) (q ∷ []));
          prev = λ a o. ground (arith, insert_tail-prev h q m a, has-append a (h ∷ xs) (q ∷ []));
        },
      )

  head-IsChain :
      (xs : List Ptr) → IsQueue m h xs → q ∉ h ∷ xs → IsChain (insert_head h q m) h (q ∷ xs) h
  head-IsChain [] v out = (
    ground (arith, insert_head-next h q m h),
    ground (arith, insert_head-prev h q m q, v.chain.0),
    (
      ground (arith, insert_head-next h q m q, v.chain.0),
      ground (arith, insert_head-prev h q m h, v.chain.0),
    ),
  )
  head-IsChain (x ∷ ys) v out = (
    ground (arith, insert_head-next h q m h),
    ground (arith, insert_head-prev h q m q, v.chain.0),
    (
      ground (arith, insert_head-next h q m q, v.chain.0),
      ground (arith, insert_head-prev h q m x, v.chain.0),
      IsChain-frame m (insert_head h q m) x ys h
          (λ a i. ground (arith, insert_head-next h q m a, v.distinct.0))
          (λ a i. ground (
            arith,
            insert_head-prev h q m a,
            has-append a ys (h ∷ []),
            v.chain.0,
            v.distinct.0,
            v.distinct.1.0,
          ))
          v.chain.2,
    ),
  )

  next-mem : m.next h ∈ h ∷ xs
  next-mem = next_mem_of m h xs v.chain

  -- `uv__queue_insert_head` puts such a node at its front, and changes no node outside.
  pub insert_head-IsQueue :
      IsQueue (insert_head h q m) h (q ∷ xs) × SameOutside (q ∷ h ∷ xs) m (insert_head h q m)
  insert_head-IsQueue = (
    record {
      chain = head-IsChain xs v out;
      distinct = (ground (arith), (ground arith, v.distinct.1));
    },
    record {
      next = λ a o. ground (arith, insert_head-next h q m a);
      prev = λ a o. ground (arith, insert_head-prev h q m a, next-mem);
    },
  )
