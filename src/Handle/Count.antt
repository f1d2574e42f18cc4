-- ===== src/Handle/Count.antt =====
-- uv-common.h: `active_handles` is the number of handles that are active and referenced.
use sebbu_c_libuv.Base.{
  ℕ, zero, suc, ◌+◌, ◌≤◌, ◌<◌, ◌^◌, ◌≡◌, true, false, ◌&&◌, List, [], ◌∷◌, arith, if◌then◌else◌,
}
use sebbu_c_libuv.Handle.{Flags, handle_start, handle_stop, handle_ref, handle_unref}

-- One for a handle that keeps the loop alive.
abbrev pub alive : Flags → ℕ
alive f = if f.active && f.ref then 1 else 0

abbrev pub total : List Flags → ℕ
total [] = 0
total (f ∷ fs) = alive f + total fs

-- What may be done to a handle. `uv_close` sets the closing flag and stops the handle, and the end
-- of closing sets the closed flag and drops the reference.
pub data Op : Type 0 where
  start stop ref unref close finish : Op

-- What `uv_close` and `uv__finish_close` of unix/core.c do to any handle: the first marks it and stops
-- it, as the function does that closes a handle of its kind.
unfoldable pub close_begins : Flags → ℕ → Flags × ℕ
close_begins f n = handle_stop (record f { closing = true }) n

unfoldable pub close_ends : Flags → ℕ → Flags × ℕ
close_ends f n = handle_unref (record f { closed = true }) n

unfoldable pub run_op : Op → Flags → ℕ → Flags × ℕ
unfolding handle_start handle_stop handle_ref handle_unref close_begins close_ends
run_op start f n = handle_start f n
run_op stop f n = handle_stop f n
run_op ref f n = handle_ref f n
run_op unref f n = handle_unref f n
run_op close f n = close_begins f n
run_op finish f n = close_ends f n

-- `run_op` on the handle at index `i` of all handles of a loop.
unfoldable pub run_at : Op → ℕ → List Flags → ℕ → List Flags × ℕ
unfolding run_op
run_at op i [] n = ([], n)
run_at op zero (f ∷ fs) n = let (f', n') = run_op op f n in (f' ∷ fs, n')
run_at op (suc i) (f ∷ fs) n = let (fs', n') = run_at op i fs n in (f ∷ fs', n')

-- No closing handle is active. A handle that the program kept active while closing it is left out.
abbrev pub IsQuiet : List Flags → Type 0
IsQuiet [] = Unit
IsQuiet (f ∷ fs) = ((f.closing && f.active) ≡ false) × IsQuiet fs

-- A closing handle is not started again, and closing ends only after it began.
abbrev pub IsFair : Op → Flags → Type 0
IsFair start f = f.closing ≡ false
IsFair finish f = f.closing ≡ true
IsFair _ f = Unit

abbrev pub IsFairAt : Op → ℕ → List Flags → Type 0
IsFairAt op i [] = Unit
IsFairAt op zero (f ∷ fs) = IsFair op f
IsFairAt op (suc i) (f ∷ fs) = IsFairAt op i fs

-- One operation changes the count as it changes the handle's share of it.
run_op-alive :
    (op : Op) (f : Flags) (n : ℕ)
    → alive f ≤ n
    → n + 1 < 2 ^ 32
    → IsFair op f
    → (f.closing && f.active) ≡ false
    → ((run_op op f n).1 + alive f ≡ n + alive (run_op op f n).0)
      × (((run_op op f n).0.closing && (run_op op f n).0.active) ≡ false)
unfolding run_op
run_op-alive start f n le room fair quiet = ground arith
run_op-alive stop f n le room fair quiet = ground arith
run_op-alive ref f n le room fair quiet = ground arith
run_op-alive unref f n le room fair quiet = ground arith
run_op-alive close f n le room fair quiet = ground arith
run_op-alive finish f n le room fair quiet = ground arith

run_at-total :
    (op : Op) (i : ℕ) (fs : List Flags) (k n : ℕ)
    → n ≡ k + total fs
    → n + 1 < 2 ^ 32
    → IsFairAt op i fs
    → IsQuiet fs
    → ((run_at op i fs n).1 ≡ k + total (run_at op i fs n).0) × IsQuiet (run_at op i fs n).0
unfolding run_at
run_at-total op i [] k n e room fair quiet = (e, tt)
run_at-total op zero (f ∷ fs) k n e room fair quiet =
    let (share, still) = run_op-alive op f n (omega arith) room fair quiet.0 in
    (omega arith, (still, quiet.1))
run_at-total op (suc i) (f ∷ fs) k n e room fair quiet =
    let (count, still) = run_at-total op i fs (k + alive f) n (omega arith) room fair quiet.1 in
    (omega arith, (quiet.0, still))

-- On Unix, in a loop none of whose closing handles is active: a handle that is not closing may be
-- started, any handle may be stopped, referenced, unreferenced or closed by a function that stops it,
-- and the closing of a closing handle may end; `active_handles` remains the number of handles that are
-- active and referenced, and no closing handle becomes active.
pub run_at-counts :
    (op : Op) (i : ℕ) (fs : List Flags) (n : ℕ)
    → n ≡ total fs
    → n + 1 < 2 ^ 32
    → IsFairAt op i fs
    → IsQuiet fs
    → ((run_at op i fs n).1 ≡ total (run_at op i fs n).0) × IsQuiet (run_at op i fs n).0
run_at-counts op i fs n e room fair quiet =
    let (count, still) = run_at-total op i fs 0 n (omega arith) room fair quiet in
    (omega arith, still)
