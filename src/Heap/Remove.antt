-- ===== src/Heap/Remove.antt =====
-- heap-inl.h: `heap_remove` and `heap_dequeue`.
use sebbu_c_libuv.Base.{
  ℕ, zero, suc, ◌+◌, ◌-◌, ◌^◌, ◌<◌, ◌≡◌, ◌↔◌, ◌⊎◌, refl, sym, ap, Bool, true, false, Option, none,
  some, List, [], ◌∷◌, arith, inl, inr, Bool-cases, ◌==◌,
}
use sebbu_c_libuv.Heap.{
  Tree, null, node, Crumb, from_left, from_right, Place, Heap, path_to, plug, descend, walk_down,
  find, put_back, heap_remove,
}
use sebbu_c_libuv.Heap.Shape.{
  IsComplete, IsCompleteAbove, number, shrink, walk_up-IsComplete, plug-IsComplete,
  walk_down-IsComplete, unplug-IsComplete,
}
use sebbu_c_libuv.Heap.Path.{path_to-target, Reached, descend-Reached}
use sebbu_c_libuv.Heap.Order.{
  IsLessThan, IsOrdered, null-IsUnder, plug-IsOrdered, unplug-IsOrdered, walk_up-IsOrdered,
  walk_down-IsSettled, node_under, IsUnder-trans,
}
use sebbu_c_libuv.Heap.Contents.{one, count, count-plug, count-walk_up, count-walk_down}
use sebbu_c_libuv.Heap.Insert.{IsHeap}

module _ {ℓ} {A : Type ℓ} (same : A → A → Bool) where
  -- `find` has come to a node that passes the test, in the tree it was given.
  record Found (x : A) (whole : Tree A) (r : Option (Place A)) : Type ℓ where
    at : Place A
    ends : r ≡ some at
    hit : same x at.elem ≡ true
    tree : plug (node at.left at.elem at.right) at.above ≡ whole

  find-Found :
      (x : A) (t : Tree A) (c : List (Crumb A))
      → ((find same x t c ≡ none) × (count (same x) t ≡ 0)) ⊎ Found x (plug t c) (find same x t c)
  unfolding find plug
  find-Found x null c = inl (refl, refl)
  find-Found x (node l y r) c = elim (Bool-cases (same x y)) [
    | inl e ↦ inr (record {
      at = record { left = l; elem = y; right = r; above = c };
      ends = rw e;
      hit = e;
      tree = refl;
    })
    | inr e ↦ elim (find-Found x l (from_left y r ∷ c)) [
      | inr f ↦ inr (record { at = f.at; ends = rw (e, f.ends); hit = f.hit; tree = f.tree })
      | inl (missing, zero_left) ↦ elim (find-Found x r (from_right l y ∷ c)) [
        | inr f ↦
            inr (record { at = f.at; ends = rw (e, missing) f.ends; hit = f.hit; tree = f.tree })
        | inl (missing', zero_right) ↦ inl (rw (e, missing) missing', rw (e, zero_left, zero_right))
      ]
    ]
  ]

module _ {ℓ} {A : Type ℓ} (same less_than : A → A → Bool) where
  -- The heap `g` holds the nodes of `h` without `x`.
  pub record Removed (h : Heap A) (x : A) (g : Heap A) : Type ℓ where
    pub valid : IsHeap less_than g
    pub size : g.nelts + 1 ≡ h.nelts
    pub contents : (q : A → Bool) → count q g.min + one q x ≡ count q h.min

module _ {ℓ} {A : Type ℓ} {same less_than : A → A → Bool} (order : IsLessThan less_than)
    (same_iff : (a b : A) → (same a b ≡ true) ↔ (a ≡ b)) where
  put_back-IsHeap :
      (m : ℕ) (child : A) (z : Place A)
      → IsComplete m 1 (plug (node z.left z.elem z.right) z.above)
      → IsOrdered less_than (plug (node z.left z.elem z.right) z.above)
      → m < 2 ^ 32
      → IsHeap less_than (record { min = put_back same less_than child z; nelts = m })
  unfolding put_back
  put_back-IsHeap m child z c o small =
      let (at, above) = unplug-IsComplete m (node z.left z.elem z.right) z.above c in
      let w = walk_down less_than child (node z.left z.elem z.right) z.above in
      let (at', above') =
        walk_down-IsComplete less_than m child z.left z.elem z.right z.above at above in
      let (o', under, o_above) =
        unplug-IsOrdered less_than (node z.left z.elem z.right) z.above o in
      let node_under = node_under less_than z.left z.elem z.right z.above under in
      record {
        complete = walk_up-IsComplete less_than m w.left w.elem w.right w.above at' above';
        ordered = walk_up-IsOrdered order w.left w.elem w.right w.above (
            walk_down-IsSettled order child (node z.left z.elem z.right) z.above
              (
                o'.2,
                o'.3,
                IsUnder-trans order z.elem z.left z.above node_under o'.0,
                IsUnder-trans order z.elem z.right z.above node_under o'.1,
              )
              o_above);
        fits = small;
      }

  put_back-count :
      (q : A → Bool) (child : A) (z : Place A)
      → count q (put_back same less_than child z) + one q z.elem
        ≡ count q (plug (node z.left z.elem z.right) z.above) + one q child
  unfolding put_back
  put_back-count q child z =
      let w = walk_down less_than child (node z.left z.elem z.right) z.above in
      omega (
        arith,
        count-walk_up q less_than w.left w.elem w.right w.above,
        count-walk_down q less_than child z.left z.elem z.right z.above,
        count-plug q (node z.left z.elem z.right) z.above,
      )

  not_same : (a b : A) → same b a ≡ false → same a b ≡ false
  not_same a b h = elim (Bool-cases (same a b)) [
    | inl e ↦ let is : a ≡ b = (same_iff a b).0 e in cc (h, (same_iff b a).1 (sym is))
    | inr e ↦ e
  ]

  -- The two ways through `heap_remove` once the last node `child` is found below the crumbs `c`.
  remove_last :
      (t : Tree A) (m : ℕ) (x : A) (l : Tree A) (child : A) (r : Tree A) (c : List (Crumb A))
      → (let (k, path) = path_to (suc m) in descend k path t []) ≡ some (node l child r, c)
      → same child x ≡ true
      → heap_remove same less_than (record { min = t; nelts = suc m }) x
        ≡ some (record { min = plug null c; nelts = m })
  unfolding heap_remove
  remove_last t m x l child r c e hit =
      let positive : (suc m == 0) ≡ false = ground arith in
      let less : suc m - 1 ≡ m = omega arith in rw (heap_remove, e, hit, positive, less)

  remove_other :
      (t : Tree A) (m : ℕ) (x : A) (l : Tree A) (child : A) (r : Tree A) (c : List (Crumb A))
      (z : Place A)
      → (let (k, path) = path_to (suc m) in descend k path t []) ≡ some (node l child r, c)
      → same child x ≡ false
      → find same x (plug null c) [] ≡ some z
      → heap_remove same less_than (record { min = t; nelts = suc m }) x
        ≡ some (record { min = put_back same less_than child z; nelts = m })
  unfolding heap_remove
  remove_other t m x l child r c z e miss found =
      let positive : (suc m == 0) ≡ false = ground arith in
      let less : suc m - 1 ≡ m = omega arith in rw (heap_remove, e, miss, found, positive, less)

  -- The tree without its last node.
  record Cut (t : Tree A) (m : ℕ) (child : A) (c : List (Crumb A)) : Type ℓ where
    complete : IsComplete m 1 (plug null c)
    ordered : IsOrdered less_than (plug null c)
    contents : (q : A → Bool) → count q (plug null c) + one q child ≡ count q t

  last-Cut :
      (t : Tree A) (m : ℕ) (l : Tree A) (child : A) (r : Tree A) (c : List (Crumb A))
      → number c ≡ suc m
      → IsComplete (suc m) (suc m) (node l child r)
      → IsCompleteAbove m c
      → plug (node l child r) c ≡ t
      → IsOrdered less_than t
      → Cut t m child c
  last-Cut t m null child null c e at above whole o = record {
    complete = plug-IsComplete m null c (omega arith) above;
    ordered =
        let (_, _, o_above) = unplug-IsOrdered less_than (node null child null) c (rw whole o) in
        plug-IsOrdered less_than null c tt (null-IsUnder less_than c) o_above;
    contents = λ q.
        omega
          (arith, ap (count q) whole, count-plug q null c, count-plug q (node null child null) c);
  }
  last-Cut t m null child (node l' y r') c e at above whole o = absurd (omega arith)
  last-Cut t m (node l' y r') child r c e at above whole o = absurd (omega arith)

  abbrev Removes : Tree A → ℕ → A → Type ℓ
  Removes t n x =
      (g : Heap A) × (heap_remove same less_than (record { min = t; nelts = n }) x ≡ some g)
      × Removed same less_than (record { min = t; nelts = n }) x g

  remove-Cut :
      (t : Tree A) (m : ℕ) (x : A) (l : Tree A) (child : A) (r : Tree A) (c : List (Crumb A))
      → (let (k, path) = path_to (suc m) in descend k path t []) ≡ some (node l child r, c)
      → Cut t m child c
      → m < 2 ^ 32
      → 0 < count (same x) t
      → Removes t (suc m) x
  unfolding plug
  remove-Cut t m x l child r c e cut small inside = elim (Bool-cases (same child x)) [
    | inl hit ↦
        let is : child ≡ x = (same_iff child x).0 hit in
        (
          record { min = plug null c; nelts = m },
          remove_last t m x l child r c e hit,
          record {
            valid = record { complete = cut.complete; ordered = cut.ordered; fits = omega arith };
            size = omega arith;
            contents = rw (← is) cut.contents;
          },
        )
    | inr miss ↦ elim (find-Found same x (plug null c) []) [
      | inl (missing, zero_all) ↦
          let other : same x child ≡ false = not_same x child miss in
          let held : count (same x) (plug null c) + 0 ≡ count (same x) t =
            rw other at (cut.contents (same x)) in
          absurd (omega arith)
      | inr f ↦
          let is : x ≡ f.at.elem = (same_iff x f.at.elem).0 f.hit in
          (
            record { min = put_back same less_than child f.at; nelts = m },
            remove_other t m x l child r c f.at e miss f.ends,
            record {
              valid =
                  put_back-IsHeap m child f.at (rw (f.tree) cut.complete) (rw (f.tree) cut.ordered)
                    small;
              size = omega arith;
              contents = λ q. omega (
                arith,
                cut.contents q,
                put_back-count q child f.at,
                ap (one q) is,
                ap (count q) f.tree,
              );
            },
          )
    ]
  ]

  remove-Reached :
      (t : Tree A) (m : ℕ) (x : A)
      → IsHeap less_than (record { min = t; nelts = suc m })
      → Reached (suc m) m (suc m) t (let (k, path) = path_to (suc m) in descend k path t [])
      → 0 < count (same x) t
      → Removes t (suc m) x
  remove-Reached t m x v reached inside = go reached.at reached.ends reached.complete reached.tree
    where
      go :
          (at : Tree A)
          → (let (k, path) = path_to (suc m) in descend k path t []) ≡ some (at, reached.above)
          → IsComplete (suc m) (suc m) at
          → plug at reached.above ≡ t
          → Removes t (suc m) x
      go null e c whole = absurd (omega arith)
      go (node l child r) e c whole =
          remove-Cut t m x l child r reached.above e
            (last-Cut t m l child r reached.above reached.numbered c reached.others whole v.ordered)
            (omega (arith, v.fits)) inside

  remove_at :
      (t : Tree A) (n : ℕ) (x : A)
      → IsHeap less_than (record { min = t; nelts = n })
      → 0 < count (same x) t
      → Removes t n x
  unfolding plug
  remove_at null n x v inside = absurd (omega arith)
  remove_at (node l y r) zero x v inside = absurd (omega (arith, v.complete.0))
  remove_at (node l y r) (suc m) x v inside =
      let reached =
        descend-Reached (suc m) m (suc m) (shrink m) (omega arith) (omega arith) (path_to (suc m)).0
          (path_to (suc m)).1 (node l y r) [] (path_to-target (suc m) (omega arith) v.fits)
          (omega arith) v.complete tt in
      remove-Reached (node l y r) m x v reached inside

  -- Removing a node that is in the heap runs into no NULL, and leaves a heap of the other nodes.
  pub heap_remove-Removed :
      (h : Heap A) (x : A)
      → IsHeap less_than h
      → 0 < count (same x) h.min
      → (g : Heap A) × (heap_remove same less_than h x ≡ some g) × Removed same less_than h x g
  heap_remove-Removed h x v inside = remove_at h.min h.nelts x v inside
