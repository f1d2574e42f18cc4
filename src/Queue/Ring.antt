-- ===== src/Queue/Ring.antt =====
-- queue.h: what a queue holds.
use sebbu_c_libuv.Base.{
  ◌≡◌, ◌≢◌, refl, ◌∙◌, Bool, true, false, ◌||◌, List, [], ◌∷◌, ◌++◌, arith, ◌==◌,
}
use sebbu_c_libuv.Queue.{Ptr, Memory}

abbrev pub has : Ptr → List Ptr → Bool
has a [] = false
has a (x ∷ xs) = (a == x) || has a xs

infix 40 ◌∈◌ ◌∉◌
abbrev pub ◌∈◌ : Ptr → List Ptr → Type 0
a ∈ xs = has a xs ≡ true

abbrev pub ◌∉◌ : Ptr → List Ptr → Type 0
a ∉ xs = has a xs ≡ false

abbrev pub IsDistinct : List Ptr → Type 0
IsDistinct [] = Unit
IsDistinct (x ∷ xs) = (x ∉ xs) × IsDistinct xs

-- From `p` the `next` pointers lead through `xs` to `q`, and the `prev` pointers lead back.
abbrev pub IsChain : Memory → Ptr → List Ptr → Ptr → Type 0
IsChain m p [] q = (m.next p ≡ q) × (m.prev q ≡ p)
IsChain m p (x ∷ xs) q = (m.next p ≡ x) × (m.prev x ≡ p) × IsChain m x xs q

-- The queue with head `h` holds `xs`, in this order.
pub record IsQueue (m : Memory) (h : Ptr) (xs : List Ptr) : Type 0 where
  pub chain : IsChain m h xs h
  pub distinct : IsDistinct (h ∷ xs)

pub has-append : (a : Ptr) (xs ys : List Ptr) → has a (xs ++ ys) ≡ (has a xs || has a ys)
has-append a [] ys = refl
has-append a (x ∷ xs) ys = ground (arith, has-append a xs ys)

-- A chain is kept by a change that spares its `next` fields (but the last node's) and `prev` fields.
pub IsChain-frame :
    (m m' : Memory) (p : Ptr) (xs : List Ptr) (q : Ptr)
    → ((a : Ptr) → a ∈ (p ∷ xs) → m'.next a ≡ m.next a)
    → ((a : Ptr) → a ∈ (xs ++ q ∷ []) → m'.prev a ≡ m.prev a)
    → IsChain m p xs q
    → IsChain m' p xs q
IsChain-frame m m' p [] q fn fp c = (fn p (ground arith) ∙ c.0, fp q (ground arith) ∙ c.1)
IsChain-frame m m' p (x ∷ xs) q fn fp c = (
  fn p (ground arith) ∙ c.0,
  fp x (ground arith) ∙ c.1,
  IsChain-frame m m' x xs q (λ a i. fn a (ground arith)) (λ a i. fp a (ground arith)) c.2,
)

pub IsChain-append :
    (m : Memory) (p : Ptr) (xs : List Ptr) (y : Ptr) (ys : List Ptr) (q : Ptr)
    → IsChain m p xs y
    → IsChain m y ys q
    → IsChain m p (xs ++ y ∷ ys) q
IsChain-append m p [] y ys q c d = (c.0, c.1, d)
IsChain-append m p (x ∷ xs) y ys q c d = (c.0, c.1, IsChain-append m x xs y ys q c.2 d)

pub IsChain-split :
    (m : Memory) (p : Ptr) (xs : List Ptr) (y : Ptr) (ys : List Ptr) (q : Ptr)
    → IsChain m p (xs ++ y ∷ ys) q
    → IsChain m p xs y × IsChain m y ys q
IsChain-split m p [] y ys q c = ((c.0, c.1), c.2)
IsChain-split m p (x ∷ xs) y ys q c =
    let (d, e) = IsChain-split m x xs y ys q c.2 in ((c.0, c.1, d), e)

-- The last of `p` and `xs`.
abbrev pub last : Ptr → List Ptr → Ptr
last p [] = p
last p (x ∷ xs) = last x xs

pub prev-last :
    (m : Memory) (p : Ptr) (xs : List Ptr) (q : Ptr) → IsChain m p xs q → m.prev q ≡ last p xs
prev-last m p [] q c = c.1
prev-last m p (x ∷ xs) q c = prev-last m x xs q c.2

pub last-mem : (p : Ptr) (xs : List Ptr) → last p xs ∈ (p ∷ xs)
last-mem p [] = ground arith
last-mem p (x ∷ xs) = ground (arith, last-mem x xs)

-- The end of a chain can be moved: only the last `next` and the new end's `prev` change.
pub IsChain-retarget :
    (m m' : Memory) (p : Ptr) (xs : List Ptr) (q q' : Ptr)
    → IsDistinct (p ∷ xs)
    → ((a : Ptr) → a ∈ (p ∷ xs) → a ≢ last p xs → m'.next a ≡ m.next a)
    → ((a : Ptr) → a ∈ xs → m'.prev a ≡ m.prev a)
    → m'.next (last p xs) ≡ q'
    → m'.prev q' ≡ last p xs
    → IsChain m p xs q
    → IsChain m' p xs q'
IsChain-retarget m m' p [] q q' d fn fp e e' c = (e, e')
IsChain-retarget m m' p (x ∷ xs) q q' d fn fp e e' c = (
  fn p (ground arith) (λ s. ground (arith, last-mem x xs)) ∙ c.0,
  fp x (ground arith) ∙ c.1,
  IsChain-retarget m m' x xs q q' d.1 (λ a i n. fn a (ground arith) n) (λ a i. fp a (ground arith))
      e e' c.2,
)

pub IsDistinct-append :
    (xs ys : List Ptr)
    → IsDistinct xs
    → IsDistinct ys
    → ((a : Ptr) → a ∈ xs → a ∉ ys)
    → IsDistinct (xs ++ ys)
IsDistinct-append [] ys d e apart = e
IsDistinct-append (x ∷ xs) ys d e apart = (
  ground (arith, has-append x xs ys, apart x),
  IsDistinct-append xs ys d.1 e (λ a i. apart a (ground arith)),
)

pub IsDistinct-split :
    (xs ys : List Ptr)
    → IsDistinct (xs ++ ys)
    → IsDistinct xs × IsDistinct ys × ((a : Ptr) → a ∈ xs → a ∉ ys)
IsDistinct-split [] ys d = (tt, d, λ a i. cc)
IsDistinct-split (x ∷ xs) ys d =
    let (dx, dy, apart) = IsDistinct-split xs ys d.1 in
    (
      (ground (arith, has-append x xs ys), dx),
      dy,
      λ a i. ground (arith, has-append x xs ys, apart a),
    )

-- The two memories differ at most in nodes of `xs`.
pub record SameOutside (xs : List Ptr) (m m' : Memory) : Type 0 where
  pub next : (a : Ptr) → a ∉ xs → m'.next a ≡ m.next a
  pub prev : (a : Ptr) → a ∉ xs → m'.prev a ≡ m.prev a

-- A queue survives what happens outside it.
pub IsQueue-SameOutside :
    (m m' : Memory) (h : Ptr) (xs ys : List Ptr)
    → SameOutside ys m m'
    → ((a : Ptr) → a ∈ (h ∷ xs) → a ∉ ys)
    → IsQueue m h xs
    → IsQueue m' h xs
IsQueue-SameOutside m m' h xs ys same apart v = record {
  chain =
      IsChain-frame m m' h xs h (λ a i. same.next a (apart a i))
        (λ a i. same.prev a (apart a (ground (arith, has-append a xs (h ∷ []))))) v.chain;
  distinct = v.distinct;
}
