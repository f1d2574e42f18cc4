-- ===== src/Stream/Callbacks.antt =====
-- unix/stream.c: the callbacks of the requests that are done.
use sebbu_c_libuv.Base.{ℕ, ◌+◌, ◌-◌, ◌≡◌, refl, ap, List, [], ◌∷◌, length, arith}
use sebbu_c_libuv.Stream.{Status, Req, Stream, size_of, Called, callbacks_loop, uv__write_callbacks}
use sebbu_c_libuv.Stream.Valid.{queue_bytes, IsStream}

-- The calls that the requests of a queue are due, in order.
abbrev pub calls_of : List Req → List Called
calls_of [] = []
calls_of (r ∷ rs) = record { number = r.number; error = r.error } ∷ calls_of rs

abbrev pub with_error : Status → List Req → List Req
with_error e [] = []
with_error e (r ∷ rs) = record r { error = e } ∷ with_error e rs

-- A callback that keeps the stream valid, whatever stands outside its queues; the loop counts as many
-- other requests afterwards.
abbrev pub Keeps : (ℕ → Status → Stream → Stream) → Type 0
Keeps react =
    (owed k n : ℕ) (e : Status) (s : Stream) → IsStream owed k s → IsStream owed k (react n e s)

module _ (react : ℕ → Status → Stream → Stream) where
  module _ (keeps : Keeps react) where
    callbacks_loop-IsStream :
        (owed k : ℕ) (pq : List Req) (s : Stream)
        → IsStream (queue_bytes pq + owed) (length pq + k) s
        → IsStream owed k ((callbacks_loop react pq s).0)
    unfolding callbacks_loop
    callbacks_loop-IsStream owed k [] s v = record {
      size = omega (arith, v.size);
      live = v.live;
      counted = omega (arith, v.counted);
    }
    callbacks_loop-IsStream owed k (r ∷ pq) s v =
        let s1 = record s {
          active_reqs = s.active_reqs - 1;
          write_queue_size = s.write_queue_size - size_of r;
        } in
        let w : IsStream (queue_bytes pq + owed) (length pq + k) s1 = record {
          size = omega (arith, v.size);
          live = v.live;
          counted = omega (arith, v.counted);
        } in
        callbacks_loop-IsStream owed k pq (react r.number r.error s1)
          (keeps (queue_bytes pq + owed) (length pq + k) r.number r.error s1 w)

  pub callbacks_loop-calls :
      (pq : List Req) (s : Stream) → (callbacks_loop react pq s).1 ≡ calls_of pq
  unfolding callbacks_loop
  callbacks_loop-calls [] s = refl
  callbacks_loop-calls (r ∷ pq) s =
      let s1 = record s {
        active_reqs = s.active_reqs - 1;
        write_queue_size = s.write_queue_size - size_of r;
      } in
      ap (◌∷◌ (record { number = r.number; error = r.error }))
        (callbacks_loop-calls pq (react r.number r.error s1))

  -- `uv__write_callbacks` calls the callback of every request that was done when it began, once, in
  -- order and with its error. A stream on which the loop counts `k` other requests, and that the
  -- callbacks keep so, by writing again for one, is valid afterwards with the same `k`: the bytes and
  -- the counts of the requests that were called are given back.
  pub uv__write_callbacks-IsStream :
      (owed k : ℕ) (s : Stream)
      → Keeps react
      → IsStream owed k s
      → IsStream owed k ((uv__write_callbacks react s).0)
        × ((uv__write_callbacks react s).1 ≡ calls_of s.write_completed_queue)
  unfolding uv__write_callbacks
  uv__write_callbacks-IsStream owed k s keeps v =
      let s1 = record s { write_completed_queue = [] } in
      let w : IsStream (queue_bytes s.write_completed_queue + owed)
          (length s.write_completed_queue + k) s1 =
        record {
          size = omega (arith, v.size);
          live = v.live;
          counted = omega (arith, v.counted);
        } in
      (
        callbacks_loop-IsStream keeps owed k s.write_completed_queue s1 w,
        callbacks_loop-calls s.write_completed_queue s1,
      )
