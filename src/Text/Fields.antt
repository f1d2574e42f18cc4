-- ===== src/Text/Fields.antt =====
-- strtok.c: the tokens of a string.
use mathlib.Core.Option
use sebbu_c_libuv.Base.{
  ℕ, zero, suc, ◌+◌, ◌<◌, ◌≡◌, inl, inr, refl, ◌∙◌, false, Option, none, some, List, [], ◌∷◌,
  length, if◌then◌else◌, arith, Bool-cases,
}
use sebbu_c_libuv.Queue.Ring.{has}
use sebbu_c_libuv.Text.{scan, uv__strtok}

-- The pieces between separators, empty ones included.
abbrev pub onto_first : ℕ → List (List ℕ) → List (List ℕ)
onto_first c [] = (c ∷ []) ∷ []
onto_first c (f ∷ fs) = (c ∷ f) ∷ fs

abbrev pub fields : List ℕ → List ℕ → List (List ℕ)
fields sep [] = [] ∷ []
fields sep (c ∷ cs) = if has c sep then [] ∷ fields sep cs else onto_first c (fields sep cs)

-- The usual loop of a caller: `uv__strtok` on `*itr` until it returns NULL; `none` is a caller that
-- is still in the loop after so many calls.
unfoldable pub tokens : ℕ → List ℕ → Option (List ℕ) → Option (List (List ℕ))
tokens zero sep itr = none
tokens (suc fuel) sep itr =
    let (token, itr') = uv__strtok none sep itr in
    let rest = tokens fuel sep itr' in
    elim token [ none ↦ some [] | some t ↦ Option.map (◌∷◌ t) rest ]

-- The string splits into a first field and the fields of what is left.
abbrev IsAfter : List ℕ → List ℕ → List ℕ → Option (List ℕ) → Type 0
IsAfter sep cs token none = fields sep cs ≡ token ∷ []
IsAfter sep cs token (some rest) =
    (fields sep cs ≡ token ∷ fields sep rest) × (length rest < length cs)

cons-IsAfter :
    (sep cs token : List ℕ) (itr : Option (List ℕ)) (c : ℕ)
    → has c sep ≡ false
    → IsAfter sep cs token itr
    → IsAfter sep (c ∷ cs) (c ∷ token) itr
cons-IsAfter sep cs token none c out a = rw (out, a)
cons-IsAfter sep cs token (some rest) c out a = (rw (out, a.0), omega (arith, a.1))

scan-IsAfter : (sep cs : List ℕ) → IsAfter sep cs (scan sep cs).0 (scan sep cs).1
unfolding scan
scan-IsAfter sep [] = refl
scan-IsAfter sep (c ∷ cs) = elim (Bool-cases (has c sep)) [
  | inl stop ↦ rw stop (rw stop, omega arith)
  | inr go_on ↦
      rw go_on (cons-IsAfter sep cs (scan sep cs).0 (scan sep cs).1 c go_on (scan-IsAfter sep cs))
]

tokens_end : (fuel : ℕ) (sep : List ℕ) → tokens (suc fuel) sep none ≡ some []
unfolding tokens uv__strtok
tokens_end fuel sep = refl

tokens_more :
    (fuel : ℕ) (sep cs : List ℕ)
    → tokens (suc fuel) sep (some cs)
      ≡ Option.map (◌∷◌ (scan sep cs).0) (tokens fuel sep (scan sep cs).1)
unfolding tokens uv__strtok
tokens_more fuel sep cs = refl

tokens-rest :
    (fuel : ℕ) (sep cs token : List ℕ) (itr : Option (List ℕ))
    → IsAfter sep cs token itr
    → length cs < fuel
    → ((rest : List ℕ)
        → length rest + 1 < fuel
        → tokens fuel sep (some rest) ≡ some (fields sep rest))
    → Option.map (◌∷◌ token) (tokens fuel sep itr) ≡ some (fields sep cs)
tokens-rest zero sep cs token itr a k h = absurd (omega arith)
tokens-rest (suc fuel) sep cs token none a k h = rw (tokens_end fuel sep, a)
tokens-rest (suc fuel) sep cs token (some rest) a k h = rw (h rest (omega (arith, a.1)), a.0)

-- Calling `uv__strtok` until it returns NULL ends, and gives the fields between separators, empty
-- ones included, in their order.
pub tokens-fields :
    (fuel : ℕ) (sep cs : List ℕ)
    → length cs + 1 < fuel
    → tokens fuel sep (some cs) ≡ some (fields sep cs)
tokens-fields zero sep cs k = absurd (omega arith)
tokens-fields (suc fuel) sep cs k =
    tokens_more fuel sep cs
    ∙ tokens-rest fuel sep cs (scan sep cs).0 (scan sep cs).1 (scan-IsAfter sep cs) (omega arith)
        (λ rest less. tokens-fields fuel sep rest less)
