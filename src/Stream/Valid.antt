-- ===== src/Stream/Valid.antt =====
-- unix/stream.c: what holds of a stream between any two steps.
use sebbu_c_libuv.Base.{ℕ, ◌+◌, ◌≡◌, refl, ap, none, some, List, [], ◌∷◌, ◌++◌, length, arith}
use sebbu_c_libuv.Stream.{ok, Req, Stream, size_of, flatten}

abbrev pub queue_bytes : List Req → ℕ
queue_bytes [] = 0
queue_bytes (r ∷ rs) = size_of r + queue_bytes rs

-- A request that is still to be written has its buffers and no error.
abbrev pub IsLive : List Req → Type 0
IsLive [] = Unit
IsLive (r ∷ rs) = ((bs : List (List ℕ)) × (r.bufs ≡ some bs)) × (r.error ≡ ok) × IsLive rs

-- `write_queue_size` is the number of bytes that queued requests have left, and of the bytes that
-- failed ones could not write; the loop counts each of them. `owed` bytes stand outside the queues, and the
-- loop counts `k` other requests.
pub record IsStream (owed k : ℕ) (s : Stream) : Type 0 where
  pub size :
      s.write_queue_size ≡ queue_bytes s.write_queue + queue_bytes s.write_completed_queue + owed
  pub live : IsLive s.write_queue
  pub counted : length s.write_queue + length s.write_completed_queue + k ≡ s.active_reqs

-- The data that is still to be written.
abbrev pub left_of : Req → List ℕ
left_of r = elim (r.bufs) [ none ↦ [] | some bs ↦ flatten bs ]

abbrev pub queue_data : List Req → List ℕ
queue_data [] = []
queue_data (r ∷ rs) = left_of r ++ queue_data rs

abbrev pub numbers : List Req → List ℕ
numbers [] = []
numbers (r ∷ rs) = r.number ∷ numbers rs

pub queue_bytes-append :
    (rs ss : List Req) → queue_bytes (rs ++ ss) ≡ queue_bytes rs + queue_bytes ss
queue_bytes-append [] ss = omega arith
queue_bytes-append (r ∷ rs) ss = omega (arith, queue_bytes-append rs ss)

pub IsLive-append : (rs ss : List Req) → IsLive rs → IsLive ss → IsLive (rs ++ ss)
IsLive-append [] ss l m = m
IsLive-append (r ∷ rs) ss l m = (l.0, l.1, IsLive-append rs ss l.2 m)

pub numbers-append : (rs ss : List Req) → numbers (rs ++ ss) ≡ numbers rs ++ numbers ss
numbers-append [] ss = refl
numbers-append (r ∷ rs) ss = ap (◌∷◌ r.number) (numbers-append rs ss)
