-- ===== src/Queue/Splice.antt =====
-- queue.h: uv__queue_split, uv__queue_move and uv__queue_add.
use sebbu_c_libuv.Base.{◌≡◌, true, false, List, [], ◌∷◌, ◌++◌, arith, ◌==◌, if◌then◌else◌}
use sebbu_c_libuv.Queue.{Ptr, Memory, init, add, split, move}
use sebbu_c_libuv.Queue.Ring.{
  ◌∈◌, ◌∉◌, IsDistinct, IsChain, IsQueue, has-append, IsChain-append, IsChain-retarget,
  IsChain-split, last, prev-last, last-mem, IsDistinct-append, IsDistinct-split,
  IsQueue-SameOutside,
}
use sebbu_c_libuv.Queue.Insert.{init-IsQueue}

-- The fields that the split leaves behind.
split-next :
    (h q n : Ptr) (m : Memory) (a : Ptr)
    → (q == n) ≡ false
    → (split h q n m).next a
      ≡ (if a == m.prev q then h else if a == n then q else if a == m.prev h then n else m.next a)
unfolding split
split-next h q n m a e = ground arith

split-prev :
    (h q n : Ptr) (m : Memory) (a : Ptr)
    → (q == n) ≡ false
    → (split h q n m).prev a
      ≡ (if a == q then n else if a == h then m.prev q else if a == n then m.prev h else m.prev a)
unfolding split
split-prev h q n m a e = ground arith

add-next :
    (h n : Ptr) (m : Memory) (a : Ptr)
    → (n == m.prev h) ≡ false
    → (n == m.next n) ≡ false
    → (add h n m).next a
      ≡ (if a == m.prev n then h else if a == m.prev h then m.next n else m.next a)
unfolding add
add-next h n m a e f = ground arith

add-prev :
    (h n : Ptr) (m : Memory) (a : Ptr)
    → (n == m.prev h) ≡ false
    → (n == m.next n) ≡ false
    → (add h n m).prev a
      ≡ (if a == h then m.prev n else if a == m.next n then m.prev h else m.prev a)
unfolding add
add-prev h n m a e f = ground arith

module _ (m : Memory) (h n : Ptr) where
  split_first :
      (xs : List Ptr) (q : Ptr) (ys : List Ptr)
      → IsChain m h xs q
      → m.prev h ≡ last q ys
      → IsDistinct (h ∷ xs)
      → ((a : Ptr) → a ∈ h ∷ xs → a ∉ q ∷ ys)
      → n ∉ h ∷ xs
      → (q == n) ≡ false
      → IsChain (split h q n m) h xs h
  split_first xs q ys c top dx apart out ne =
      let e = prev-last m h xs q c in
      IsChain-retarget m (split h q n m) h xs q h dx
        (λ a i s. ground (arith, split-next h q n m a, apart a, last-mem q ys))
        (λ a i. ground (arith, split-prev h q n m a, apart a, dx.0))
        (ground (arith, split-next h q n m (last h xs)))
        (ground (arith, split-prev h q n m h, apart h)) c

  split_second :
      (xs : List Ptr) (q : Ptr) (ys : List Ptr)
      → m.prev q ≡ last h xs
      → IsChain m q ys h
      → IsDistinct (q ∷ ys)
      → ((a : Ptr) → a ∈ h ∷ xs → a ∉ q ∷ ys)
      → n ∉ h ∷ xs
      → n ∉ q ∷ ys
      → IsChain (split h q n m) n (q ∷ ys) n
  split_second xs q ys bottom d dy apart out out' =
      let e = prev-last m q ys h d in
      (
        ground (arith, split-next h q n m n, last-mem h xs),
        ground (arith, split-prev h q n m q),
        IsChain-retarget m (split h q n m) q ys h n dy
            (λ a i s.
              ground (arith, split-next h q n m a, apart a, apart (last h xs), last-mem h xs))
            (λ a i. ground (arith, split-prev h q n m a, apart h, dy.0))
            (ground (
              arith,
              split-next h q n m (last q ys),
              apart (last h xs),
              last-mem h xs,
              last-mem q ys,
            ))
            (ground (arith, split-prev h q n m n)) d,
      )

  -- `uv__queue_split` leaves the nodes before `q` in the queue and makes a queue with head `n` of
  -- `q` and the nodes behind it.
  pub split-IsQueue :
      (xs : List Ptr) (q : Ptr) (ys : List Ptr)
      → IsQueue m h (xs ++ q ∷ ys)
      → n ∉ h ∷ xs ++ q ∷ ys
      → IsQueue (split h q n m) h xs × IsQueue (split h q n m) n (q ∷ ys)
  split-IsQueue xs q ys v out =
      let (c, d) = IsChain-split m h xs q ys h v.chain in
      let (dx, dy, apart) = IsDistinct-split (h ∷ xs) (q ∷ ys) v.distinct in
      let out_x : n ∉ h ∷ xs = ground (arith, has-append n xs (q ∷ ys)) in
      let out_y : n ∉ q ∷ ys = ground (arith, has-append n xs (q ∷ ys)) in
      let bottom = prev-last m h xs q c in
      let top = prev-last m q ys h d in
      (
        record { chain = split_first xs q ys c top dx apart out_x (ground arith); distinct = dx },
        record {
          chain = split_second xs q ys bottom d dy apart out_x out_y;
          distinct = (out_y, dy);
        },
      )

  -- `uv__queue_move` hands all nodes of the queue to a new head in the same order, and leaves the
  -- old queue empty.
  pub move-IsQueue :
      (xs : List Ptr)
      → IsQueue m h xs
      → n ∉ h ∷ xs
      → IsQueue (move h n m) n xs × IsQueue (move h n m) h []
  unfolding move
  move-IsQueue [] v out =
      let empty : (h == m.next h) ≡ true = ground (arith, v.chain.0) in
      let (fresh, same) = init-IsQueue n m in
      rw empty (fresh, IsQueue-SameOutside m (init n m) h [] (n ∷ []) same (λ a i. ground arith) v)
  move-IsQueue (x ∷ ys) v out =
      let full : (h == m.next h) ≡ false = ground (arith, v.chain.0, v.distinct.0) in
      rw (full, v.chain.0) (let (front, back) = split-IsQueue [] x ys v out in (back, front))

  add-IsChain :
      (xs : List Ptr) (y : Ptr) (ys : List Ptr)
      → IsChain m h xs h
      → IsChain m n (y ∷ ys) n
      → IsDistinct (h ∷ xs)
      → IsDistinct (n ∷ y ∷ ys)
      → ((a : Ptr) → a ∈ h ∷ xs → a ∉ n ∷ y ∷ ys)
      → IsChain (add h n m) h (xs ++ y ∷ ys) h
  add-IsChain xs y ys c d dx dy apart =
      let low = prev-last m h xs h c in
      let high = prev-last m n (y ∷ ys) n d in
      let e : (n == m.prev h) ≡ false = ground (arith, apart (last h xs), last-mem h xs) in
      let f : (n == m.next n) ≡ false = ground (arith, d.0, dy.0) in
      IsChain-append (add h n m) h xs y ys h
        (IsChain-retarget m (add h n m) h xs h y dx
          (λ a i s. ground (arith, add-next h n m a e f, apart a, last-mem y ys))
          (λ a i. ground (arith, add-prev h n m a e f, apart a, dx.0, d.0))
          (ground (
            arith,
            add-next h n m (last h xs) e f,
            apart (last h xs),
            last-mem h xs,
            last-mem y ys,
            d.0,
          ))
          (ground (arith, add-prev h n m y e f, apart h, d.0)) c)
        (IsChain-retarget m (add h n m) y ys n h dy.1
          (λ a i s. ground (arith, add-next h n m a e f, apart a, apart (last h xs), last-mem h xs))
          (λ a i. ground (arith, add-prev h n m a e f, apart h, dy.1.0, d.0))
          (ground (arith, add-next h n m (last y ys) e f)) (ground (arith, add-prev h n m h e f))
          d.2)

  -- `uv__queue_add` appends the nodes of a second queue, which shares no node with the first and
  -- is not empty, to the first.
  pub add-IsQueue :
      (xs : List Ptr) (y : Ptr) (ys : List Ptr)
      → IsQueue m h xs
      → IsQueue m n (y ∷ ys)
      → ((a : Ptr) → a ∈ h ∷ xs → a ∉ n ∷ y ∷ ys)
      → IsQueue (add h n m) h (xs ++ y ∷ ys)
  add-IsQueue xs y ys v w apart = record {
    chain = add-IsChain xs y ys v.chain w.chain v.distinct w.distinct apart;
    distinct =
        IsDistinct-append (h ∷ xs) (y ∷ ys) v.distinct w.distinct.1
          (λ a i. ground (arith, apart a));
  }
