-- ===== src/Timer/Invariant.antt =====
-- timer.c: what holds of the timers of a loop between any two calls.
use sebbu_c_libuv.Base.{
  ℕ, ◌<◌, ◌≡◌, refl, Bool, true, false, Option, none, some, List, [], ◌∷◌, arith, ◌==◌, ==_iff,
  if◌then◌else◌, Bool-cases, inl, inr,
}
use sebbu_c_libuv.Heap.{Heap}
use sebbu_c_libuv.Heap.Order.{IsLessThan}
use sebbu_c_libuv.Heap.Contents.{count}
use sebbu_c_libuv.Heap.Insert.{IsHeap}
use sebbu_c_libuv.Heap.Agree.{Agree-IsHeap}
use sebbu_c_libuv.Queue.Ring.{has, ◌∈◌, IsDistinct}
use sebbu_c_libuv.Timer.{Timer, Loop, timer_less_than, unlink}

abbrev pub is_some {ℓ} : {A : Type ℓ} → Option A → Bool
is_some none = false
is_some (some x) = true

-- The heap holds just the active timers, each once; the ready queue links timers that are not
-- active, each once; both kinds have a callback.
pub record IsLoop (s : Loop) : Type 0 where
  pub heap : IsHeap (timer_less_than s.timers) s.timer_heap
  pub held :
      (i : ℕ) → count (◌==◌ i) s.timer_heap.min ≡ (if (s.timers i).flags.active then 1 else 0)
  pub idle : (i : ℕ) → i ∈ s.ready → (s.timers i).flags.active ≡ false
  pub distinct : IsDistinct s.ready
  pub callable : (i : ℕ) → (s.timers i).flags.active ≡ true → is_some ((s.timers i).timer_cb) ≡ true
  pub ready_callable : (i : ℕ) → i ∈ s.ready → is_some ((s.timers i).timer_cb) ≡ true

-- Timers are ordered by due time and then by the order of their starts.
pub timer_less_than-IsLessThan : (timers : ℕ → Timer) → IsLessThan (timer_less_than timers)
unfolding timer_less_than
timer_less_than-IsLessThan timers = record {
  asym = λ a b h. ground arith;
  trans = λ a b c h k. ground arith;
}

-- Two stores order the timers of a heap alike if they agree on their due times and starts.
pub IsHeap-timers :
    (timers timers' : ℕ → Timer) (h : Heap ℕ)
    → ((i : ℕ)
        → 0 < count (◌==◌ i) h.min
        → ((timers' i).timeout ≡ (timers i).timeout) × ((timers' i).start_id ≡ (timers i).start_id))
    → IsHeap (timer_less_than timers) h
    → IsHeap (timer_less_than timers') h
unfolding timer_less_than
IsHeap-timers timers timers' h alike =
    Agree-IsHeap ◌==◌ (timer_less_than timers) (timer_less_than timers') (λ a. (==_iff a a).1 refl)
      h (λ a b i j. rw ((alike a i).0, (alike a i).1, (alike b j).0, (alike b j).1))

pub has-unlink :
    (a i : ℕ) (js : List ℕ)
    → IsDistinct js
    → has a (unlink i js) ≡ (if a == i then false else has a js)
unfolding unlink
has-unlink a i [] d = ground arith
has-unlink a i (j ∷ js) d = ground (arith, has-unlink a i js, d.0)

pub unlink-IsDistinct : (i : ℕ) (js : List ℕ) → IsDistinct js → IsDistinct (unlink i js)
unfolding unlink
unlink-IsDistinct i [] d = tt
unlink-IsDistinct i (j ∷ js) d = elim (Bool-cases (j == i)) [
  | inl e ↦ rw e d.1
  | inr e ↦ rw e (ground (arith, has-unlink j i js), unlink-IsDistinct i js d.1)
]
