-- ===== src/Stream/Tests.antt =====
-- unix/stream.c: runs of a stream with two requests, and the theorems at it.
use sebbu_c_libuv.Base.{
  length, ℕ, zero, suc, ◌+◌, ◌≡◌, refl, Bool, true, false, not, Option, none, some, List, [], ◌∷◌,
}
use sebbu_c_libuv.Stream.{
  Status, ok, ecanceled, Answer, wrote, again, Req, Stream, uv__count_bufs, uv__write_req_update,
  uv__try_write, uv__write_req_finish, write_loop, uv__write, uv__write_callbacks,
}
use sebbu_c_libuv.Stream.Valid.{IsStream}
use sebbu_c_libuv.Stream.Api.{new_req, append, connected, written, drained, uv__stream_destroy}
use sebbu_c_libuv.Stream.Callbacks.{calls_of, uv__write_callbacks-IsStream}
use sebbu_c_libuv.Stream.Destroy.{
  LeavesClosed, connect_calls, shutdown_calls, all_calls, Destroyed, uv__stream_destroy-calls,
}
use sebbu_c_libuv.Stream.Accept.{registered, append-IsStream}

-- A kernel that takes three bytes at first, then one, and then is full.
abbrev kernel : ℕ → Answer
kernel zero = wrote 3
kernel (suc zero) = wrote 1
kernel (suc (suc n)) = again

abbrev req : ℕ → List (List ℕ) → Req
req number bufs = record { number = number; bufs = some bufs; send_handle = none; error = ok }

abbrev stream : List Req → List Req → ℕ → Bool → ℕ → Stream
stream queue completed size fd_open reqs = record {
  write_queue = queue;
  write_completed_queue = completed;
  write_queue_size = size;
  fd_open = fd_open;
  writable = true;
  blocking_writes = false;
  closing = not fd_open;
  closed = not fd_open;
  shut = false;
  connect_req = false;
  shutdown_req = none;
  pollout = false;
  fed = false;
  active_reqs = reqs;
  calls = 0;
  wire = [];
}

abbrev first : Req
first = req 1 ((10 ∷ 11 ∷ []) ∷ (12 ∷ []) ∷ [])

abbrev second : Req
second = req 2 ((20 ∷ 21 ∷ []) ∷ [])

abbrev two : Stream
two = stream (first ∷ second ∷ []) [] 5 true 2

-- One request failed before, another is still to be written, and the stream was closed.
abbrev closed : Stream
closed = stream (second ∷ []) (record first { error = ecanceled } ∷ []) 5 false 2

abbrev size_and_wire : Option Stream → Option (ℕ × List ℕ)
size_and_wire none = none
size_and_wire (some s) = some (s.write_queue_size, s.wire)

-- The first request is finished, and a byte of the second one is left.
write_two : size_and_wire (uv__write kernel 16 35 two) ≡ some (1, 10 ∷ 11 ∷ 12 ∷ 20 ∷ [])
unfolding uv__write write_loop uv__try_write uv__write_req_update uv__count_bufs
    uv__write_req_finish
write_two = refl

closed-IsStream : IsStream 0 0 closed
unfolding uv__count_bufs
closed-IsStream = record { size = refl; live = ((_, refl), refl, tt); counted = refl }

-- A callback that writes one more byte.
abbrev write_more : ℕ → Status → Stream → Stream
write_more n e s = append (new_req 9 ((90 ∷ []) ∷ []) none) ((90 ∷ []) ∷ []) (registered s)

uv__write_callbacks-IsStream_example :
    IsStream 0 0 ((uv__write_callbacks write_more closed).0)
    × ((uv__write_callbacks write_more closed).1
        ≡ calls_of (record first { error = ecanceled } ∷ []))
uv__write_callbacks-IsStream_example =
    uv__write_callbacks-IsStream write_more 0 0 closed
      (λ owed k n e s v. append-IsStream owed k 9 ((90 ∷ []) ∷ []) none s v) closed-IsStream

-- The same with a connect and a shutdown request, on a loop that counts another one.
abbrev ended : Stream
ended = record closed { connect_req = true; shutdown_req = some 7; active_reqs = 5 }

ended-IsStream : IsStream 0 (length (connect_calls ended) + length (shutdown_calls ended) + 1) ended
unfolding uv__count_bufs
ended-IsStream = record { size = refl; live = ((_, refl), refl, tt); counted = refl }

untouched : LeavesClosed (λ c t. t)
untouched c s no_fd = record {
  write_queue = refl;
  completed = refl;
  size = refl;
  fd_open = refl;
  closing = refl;
  connect_req = refl;
  shutdown_req = refl;
  active_reqs = refl;
}

ended_calls :
    all_calls ended
    ≡ connected ecanceled ∷ written 1 ecanceled ∷ written 2 ecanceled ∷ drained 7 ecanceled ∷ []
ended_calls = refl

uv__stream_destroy-calls_example :
    (g : Stream) × (uv__stream_destroy (λ c t. t) ended ≡ some (g, all_calls ended)) × Destroyed 1 g
uv__stream_destroy-calls_example =
    uv__stream_destroy-calls 1 (λ c t. t) ended untouched refl refl refl refl ended-IsStream
