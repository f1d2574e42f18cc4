-- ===== src/Heap/Path.antt =====
-- heap-inl.h: the path that insertion and removal compute leads to the place with that number.
use native.Mathlib.Nat.{add-zero}
use native.Mathlib.Numerals.{add-one}
use mathlib.Core.Path.{subst}
use sebbu_c_libuv.Base.{
  ◌-◌, ℕ, zero, suc, ◌+◌, ◌*◌, ◌/◌, ◌%◌, ◌^◌, ◌≤◌, ◌<◌, ◌≡◌, refl, Option, some, List, ◌∷◌, arith,
  leb, ◌==◌, inl, inr, Bool-cases, ==_iff, sym, ◌∙◌, ◌≢◌, ◌⊎◌,
}
use sebbu_c_libuv.Heap.{
  Tree, null, node, Crumb, from_left, from_right, path_loop, path_to, plug, descend,
}
use sebbu_c_libuv.Heap.Shape.{
  IsComplete, number, IsCompleteAbove, target, halve, Avoids, halve-target, Avoids-sibling,
  le-target,
}

target-bit :
    (n k path : ℕ)
    → path * 2 + 1 < 2 ^ 32
    → target (n / 2) (k + 1) ((path * 2 + n % 2) % 2 ^ 32) ≡ target n k path
target-bit n k path small =
    let up : 2 * (n / 2) + (path * 2 + n % 2) % 2 ^ 32 % 2 ≡ n = omega arith in
    let rest : (path * 2 + n % 2) % 2 ^ 32 / 2 ≡ path = omega arith in rw (add-one, up, rest)

double-le : (m q r top : ℕ) → m * (2 * q + r) ≤ top → 2 * m * q ≤ top
double-le m q r top h = omega arith

twice-le : (m n top : ℕ) → 2 ≤ n → m * n ≤ top → 2 * m ≤ top
twice-le m n top h le =
    let e : n ≡ 2 + (n - 2) = omega arith in
    let le' : m * (2 + (n - 2)) ≤ top = subst (λ t. m * t ≤ top) e le in omega arith

-- The bits computed so far lead from `n` to the goal; `m` is two to the power of their number.
path_loop-target :
    (fuel k n path m top : ℕ)
    → n ≤ fuel
    → 1 ≤ n
    → path < m
    → m * n ≤ top
    → top < 2 ^ 32
    → let (k', path') = path_loop fuel k n path in target 1 k' path' ≡ target n k path
unfolding path_loop
path_loop-target zero k n path m top f pos lt le small = absurd (omega arith)
path_loop-target (suc fuel) k n path m top f pos lt le small = elim (Bool-cases (leb 2 n)) [
  | inl more ↦
      let two : 2 ≤ n = ground arith in
      let e : n ≡ 2 * (n / 2) + n % 2 = omega arith in
      let half = double-le m (n / 2) (n % 2) top (subst (λ t. m * t ≤ top) e le) in
      rw more (
        path_loop-target fuel (k + 1) (n / 2) ((path * 2 + n % 2) % 2 ^ 32) (2 * m) top
          (omega arith) (omega arith) (omega arith) half small
        ∙ target-bit n k path (omega (arith, twice-le m n top two le)))
  | inr done ↦ rw done (let one : n ≡ 1 = ground arith in rw one)
]

pub path_to-target : (n : ℕ) → 1 ≤ n → n < 2 ^ 32 → let (k, path) = path_to n in target 1 k path ≡ n
unfolding path_to
path_to-target n pos small =
    path_loop-target n 0 n 0 1 n (omega arith) pos (omega arith) (omega arith) small

-- Where the walk from `t` ends: at the place `goal`, in the same tree, which after a change there
-- alone is complete up to `n'`.
pub record Reached {ℓ} {A : Type ℓ} (n n' goal : ℕ) (whole : Tree A)
    (r : Option (Tree A × List (Crumb A))) : Type ℓ where
  pub at : Tree A
  pub above : List (Crumb A)
  pub ends : r ≡ some (at, above)
  pub numbered : number above ≡ goal
  pub complete : IsComplete n goal at
  pub others : IsCompleteAbove n' above
  pub tree : plug at above ≡ whole

module _ {ℓ} {A : Type ℓ} (n n' goal : ℕ)
    (keep : (j : ℕ) (s : Tree A) → Avoids goal j → IsComplete n j s → IsComplete n' j s)
    (lo : goal ≤ n + 1) (hi : goal ≤ n' + 1) where
  -- The other child of a node on the way keeps its shape.
  sibling-IsComplete :
      (i b k path j : ℕ) (s : Tree A)
      → target (2 * i + b) k path ≡ goal
      → b ≤ 1
      → 1 ≤ i
      → j ≢ 2 * i + b
      → (j ≡ 2 * i) ⊎ (j ≡ 2 * i + 1)
      → IsComplete n j s
      → (i ≤ n') × IsComplete n' j s
  sibling-IsComplete i b k path j s e bit pos ne side h =
      let here : halve k goal ≡ 2 * i + b = rw e at (halve-target (2 * i + b) k path) in
      (
        omega (arith, le-target (2 * i + b) k path),
        keep j s (Avoids-sibling goal i j k pos (omega arith) (λ q. ne (sym q ∙ here)) side) h,
      )

  pub descend-Reached :
      (k path : ℕ) (t : Tree A) (c : List (Crumb A))
      → target (number c) k path ≡ goal
      → 1 ≤ number c
      → IsComplete n (number c) t
      → IsCompleteAbove n' c
      → Reached n n' goal (plug t c) (descend k path t c)
  unfolding descend plug
  descend-Reached zero path t c e pos h a = record {
    at = t;
    above = c;
    ends = refl;
    numbered = e;
    complete = rw e at h;
    others = a;
    tree = refl;
  }
  descend-Reached (suc k) path null c e pos h a =
      absurd (omega (arith, le-target (2 * number c + path % 2) k (path / 2)))
  descend-Reached (suc k) path (node l x r) c e pos h a = elim (Bool-cases (path % 2 == 1)) [
    | inl odd ↦
        let bit : path % 2 ≡ 1 = (==_iff (path % 2) 1).0 odd in
        let on : target (2 * number c + 1) k (path / 2) ≡ goal = rw bit at e in
        let kept =
          sibling-IsComplete (number c) 1 k (path / 2) (2 * number c) l on (omega arith) pos
            (omega arith) (inl refl) h.1 in
        rw odd (
          descend-Reached k (path / 2) r (from_right l x ∷ c) on (omega arith) h.2
            (kept.0, kept.1, a))
    | inr even ↦
        let bit : path % 2 ≡ 0 = ground arith in
        let on : target (2 * number c + 0) k (path / 2) ≡ goal = rw bit at e in
        let kept =
          sibling-IsComplete (number c) 0 k (path / 2) (2 * number c + 1) r on (omega arith) pos
            (omega arith) (inr refl) h.2 in
        rw even (
          descend-Reached k (path / 2) l (from_left x r ∷ c) (rw add-zero at on) (omega arith) h.1
            (kept.0, kept.1, a))
  ]
