-- ===== src/Stream/Write.antt =====
-- unix/stream.c: uv__write and the kernel.
use sebbu_c_libuv.Base.{ℕ, ◌-◌, ◌≤◌, ◌≡◌, ◌≢◌, ◌⊎◌, Bool, Option, none, some, List, ◌∷◌, ◌++◌, take}
use sebbu_c_libuv.Stream.{
  Status, ok, Answer, Req, Stream, flatten, uv__count_bufs, uv__write_req_update, sent, refused,
  uv__try_write,
}

module _ (kernel : ℕ → Answer) (iovmax : ℕ) where
  -- Either some bytes from the front are written, or none and there is an error.
  abbrev Attempt : List (List ℕ) → Option Bool → Stream → Type 0
  Attempt bufs h s =
      ((n : ℕ) × (calls : ℕ) × (uv__try_write kernel iovmax bufs h s
          ≡ (sent n, record s { calls = calls; wire = s.wire ++ take n (flatten bufs) }))
        × (n ≤ uv__count_bufs bufs))
      ⊎ ((e : Status) × (calls : ℕ) × (uv__try_write kernel iovmax bufs h s
            ≡ (refused e, record s { calls = calls }))
          × (e ≢ ok))

  module _ (fuel count : ℕ) (s : Stream) (r : Req) (rest : List Req) (bufs : List (List ℕ))
      (head : s.write_queue ≡ r ∷ rest) (has_bufs : r.bufs ≡ some bufs) where
    abbrev wrote_some : ℕ → ℕ → Stream
    wrote_some n calls = record s {
      calls = calls;
      wire = s.wire ++ take n (flatten bufs);
      write_queue =
          record r { bufs = some (uv__write_req_update bufs n); send_handle = none } ∷ rest;
      write_queue_size = s.write_queue_size - n;
    }
