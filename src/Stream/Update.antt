-- ===== src/Stream/Update.antt =====
-- unix/stream.c: uv__write_req_update takes just the bytes off that were written.
use sebbu_c_libuv.Base.{
  ℕ, zero, suc, ◌+◌, ◌-◌, ◌<◌, ◌≤◌, ◌≡◌, inl, inr, refl, sym, ap, ◌∙◌, List, [], ◌∷◌, ◌++◌, length,
  length-append, drop, ltb, arith, Bool-cases,
}
use sebbu_c_libuv.Stream.{flatten, take_bufs, uv__count_bufs, uv__write_req_update}

pub uv__count_bufs-flatten : (bs : List (List ℕ)) → uv__count_bufs bs ≡ length (flatten bs)
unfolding uv__count_bufs
uv__count_bufs-flatten [] = refl
uv__count_bufs-flatten (b ∷ bs) =
    omega (arith, uv__count_bufs-flatten bs, length-append b (flatten bs))

pub take_bufs-le :
    (n : ℕ) (bs : List (List ℕ)) → uv__count_bufs (take_bufs n bs) ≤ uv__count_bufs bs
unfolding uv__count_bufs
take_bufs-le n [] = omega arith
take_bufs-le zero (b ∷ bs) = omega arith
take_bufs-le (suc n) (b ∷ bs) = omega (arith, take_bufs-le n bs)

drop-append-left : (n : ℕ) (xs ys : List ℕ) → n < length xs → drop n (xs ++ ys) ≡ drop n xs ++ ys
drop-append-left n [] ys h = absurd (omega arith)
drop-append-left zero (x ∷ xs) ys h = refl
drop-append-left (suc n) (x ∷ xs) ys h = drop-append-left n xs ys (omega arith)

drop-append-right : (n m : ℕ) (xs ys : List ℕ) → n ≡ length xs + m → drop n (xs ++ ys) ≡ drop m ys
drop-append-right n m [] ys h = ap (λ k. drop k ys) (omega arith)
drop-append-right zero m (x ∷ xs) ys h = absurd (omega arith)
drop-append-right (suc n) m (x ∷ xs) ys h = drop-append-right n m xs ys (omega arith)

drop_zero : (xs : List ℕ) → drop 0 xs ≡ xs
drop_zero [] = refl
drop_zero (x ∷ xs) = refl

-- `uv__write_req_update` drops the bytes written off the front of the buffers.
pub flatten-uv__write_req_update :
    (bs : List (List ℕ)) (n : ℕ)
    → n ≤ uv__count_bufs bs
    → flatten (uv__write_req_update bs n) ≡ drop n (flatten bs)
unfolding uv__write_req_update uv__count_bufs
flatten-uv__write_req_update [] n h = refl
flatten-uv__write_req_update (b ∷ bs) n h = elim (Bool-cases (ltb n (length b))) [
  | inl inside ↦ rw inside (sym (drop-append-left n b (flatten bs) (ground arith)))
  | inr past ↦ elim (Bool-cases (ltb (length b) n)) [
    | inl more ↦
        rw (past, more)
          (flatten-uv__write_req_update bs (n - length b) (omega arith)
            ∙ sym (drop-append-right n (n - length b) b (flatten bs) (ground arith)))
    | inr exact ↦
        rw (past, exact)
          (sym (drop-append-right n 0 b (flatten bs) (ground arith) ∙ drop_zero (flatten bs)))
  ]
]
