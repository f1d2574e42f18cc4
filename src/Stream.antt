-- ===== src/Stream.antt =====
-- unix/stream.c: the write queue of a stream.
--
-- The bytes handed to the kernel are kept in `wire`, and the outcome of the n-th system call that
-- writes, after EINTR, is `kernel n`. The watcher of the stream is seen through two flags, whether
-- it waits for POLLOUT and whether it was fed; see Io for the watcher itself.
pub mod Api
pub mod Update
pub mod Valid
pub mod Write
pub mod Finish
pub mod Callbacks
pub mod Destroy
pub mod Accept
mod Tests
use Prim.Native.Nat.{min}
use sebbu_c_libuv.Base.{
  ℕ, zero, suc, ◌+◌, ◌-◌, Bool, true, false, not, ◌&&◌, ◌||◌, Option, none, some, List, [], ◌∷◌,
  ◌++◌, length, take, drop, ltb, leb, ◌==◌, if◌then◌else◌,
}

-- The values returned and reported; `sys` is any other negated errno.
pub data Status : Type 0 where
  ok ecanceled ebadf epipe einval enomem eagain enotconn : Status
  sys : ℕ → Status

-- What a system call that writes came to.
pub data Answer : Type 0 where
  wrote : ℕ → Answer
  again : Answer
  failed : ℕ → Answer

-- `uv_write_t`: a number to tell it by, the buffers from `write_index` on, which are NULL once they
-- are freed, and the handle to be sent, as far as it matters: whether it is closing.
pub record Req : Type 0 where
  pub number : ℕ
  pub bufs : Option (List (List ℕ))
  pub send_handle : Option Bool
  pub error : Status

pub record Stream : Type 0 where
  pub write_queue : List Req
  pub write_completed_queue : List Req
  pub write_queue_size : ℕ
  pub fd_open : Bool
  pub writable : Bool
  pub blocking_writes : Bool
  pub closing : Bool
  pub closed : Bool
  pub shut : Bool
  pub connect_req : Bool
  pub shutdown_req : Option ℕ
  pub pollout : Bool
  pub fed : Bool
  pub active_reqs : ℕ
  pub calls : ℕ
  pub wire : List ℕ

abbrev pub flatten : List (List ℕ) → List ℕ
flatten [] = []
flatten (b ∷ bs) = b ++ flatten bs

abbrev pub take_bufs : ℕ → List (List ℕ) → List (List ℕ)
take_bufs n [] = []
take_bufs zero (b ∷ bs) = []
take_bufs (suc n) (b ∷ bs) = b ∷ take_bufs n bs

unfoldable pub uv__count_bufs : List (List ℕ) → ℕ
uv__count_bufs [] = 0
uv__count_bufs (b ∷ bs) = length b + uv__count_bufs bs

-- The buffers after `n` bytes of them were written.
unfoldable pub uv__write_req_update : List (List ℕ) → ℕ → List (List ℕ)
uv__write_req_update [] n = []
uv__write_req_update (b ∷ bs) n =
    let rest = uv__write_req_update bs (n - length b) in
    if ltb n (length b) then drop n b ∷ bs else if ltb (length b) n then rest else bs

-- `uv__write_req_size`, where there are buffers.
abbrev pub size_of : Req → ℕ
size_of r = elim (r.bufs) [ none ↦ 0 | some bs ↦ uv__count_bufs bs ]

pub data Tried : Type 0 where
  sent : ℕ → Tried
  refused : Status → Tried

-- The parameters of all that writes: the kernel, and how many buffers it takes at once.
module _ (kernel : ℕ → Answer) (iovmax : ℕ) where
  unfoldable pub uv__try_write : List (List ℕ) → Option Bool → Stream → Tried × Stream
  uv__try_write bufs (some true) s = (refused ebadf, s)
  uv__try_write bufs send_handle s = elim (kernel s.calls) [
    | wrote n ↦
        let m = min n (uv__count_bufs (take_bufs iovmax bufs)) in
        (sent m, record s { calls = s.calls + 1; wire = s.wire ++ take m (flatten bufs) })
    | again ↦ (refused eagain, record s { calls = s.calls + 1 })
    | failed e ↦ (refused (sys e), record s { calls = s.calls + 1 })
  ]

-- `uv__write_req_finish` on the head of the queue. The buffers are freed if there was no error.
unfoldable pub uv__write_req_finish : Req → List Req → Stream → Stream
uv__write_req_finish r rest s =
    let bufs' : Option (List (List ℕ)) = elim (r.error) [ ok ↦ none | _ ↦ r.bufs ] in
    record s {
      write_queue = rest;
      write_completed_queue = s.write_completed_queue ++ record r { bufs = bufs' } ∷ [];
      fed = true;
    }

module _ (kernel : ℕ → Answer) (iovmax : ℕ) where
  -- The loop of `uv__write`: `count` is the number of requests that may still be finished before
  -- another one. `none` is a loop that needs more rounds, or a request without buffers.
  unfoldable pub write_loop : ℕ → ℕ → Stream → Option Stream
  write_loop zero count s = none
  write_loop (suc fuel) count s = elim (s.write_queue) [
    | [] ↦ some s
    | r ∷ rest ↦ elim (r.bufs) [
      | none ↦ none
      | some bufs ↦
          let (tried, s1) = uv__try_write kernel iovmax bufs r.send_handle s in
          let waiting = some (record s1 { pollout = true }) in
          elim tried [
            | sent n ↦
                let left = uv__write_req_update bufs n in
                let r' = record r { bufs = some left; send_handle = none } in
                let s2 = record s1 {
                  write_queue = r' ∷ rest;
                  write_queue_size = s1.write_queue_size - n;
                } in
                let s3 = uv__write_req_finish r' rest s2 in
                let next = write_loop fuel (count - 1) s3 in
                let retry = write_loop fuel count s2 in
                if length left == 0
                then if ltb 0 count then next else some s3
                else if s.blocking_writes
                then retry
                else some (record s2 { pollout = true })
            | refused eagain ↦
                let retry = write_loop fuel count s1 in if s.blocking_writes then retry else waiting
            | refused e ↦
                some (record (uv__write_req_finish (record r { error = e }) rest s1) {
                  pollout = false;
                })
          ]
    ]
  ]

  -- Each round but the last finishes one of 33 requests, unless the stream is blocking. `none` is
  -- also a failed assertion, that the file descriptor is open.
  unfoldable pub uv__write : ℕ → Stream → Option Stream
  uv__write fuel s = let ran = write_loop fuel 32 s in if s.fd_open then ran else none

-- A call of a request's callback.
pub record Called : Type 0 where
  pub number : ℕ
  pub error : Status

-- The loop of `uv__write_callbacks`, over the queue that was moved away. `react` is what the callback
-- of a request does to the stream.
module _ (react : ℕ → Status → Stream → Stream) where
  unfoldable pub callbacks_loop : List Req → Stream → Stream × List Called
  callbacks_loop [] s = (s, [])
  callbacks_loop (r ∷ pq) s =
      let s1 = record s {
        active_reqs = s.active_reqs - 1;
        write_queue_size = s.write_queue_size - size_of r;
      } in
      let (g, called) = callbacks_loop pq (react r.number r.error s1) in
      (g, record { number = r.number; error = r.error } ∷ called)

  unfoldable pub uv__write_callbacks : Stream → Stream × List Called
  uv__write_callbacks s =
      callbacks_loop s.write_completed_queue (record s { write_completed_queue = [] })

-- The loop of `uv__stream_flush_write_queue`.
unfoldable pub flush_loop : Status → List Req → Stream → Stream
flush_loop e [] s = record s { write_queue = [] }
flush_loop e (r ∷ rest) s = flush_loop e rest (record s {
  write_queue = rest;
  write_completed_queue = s.write_completed_queue ++ record r { error = e } ∷ [];
})

unfoldable pub uv__stream_flush_write_queue : Status → Stream → Stream
uv__stream_flush_write_queue e s = flush_loop e s.write_queue s

-- `uv__drain` behind its assertion: the shutdown request that is finished, if one is. `sys_shutdown`
-- is the errno of shutdown(2), or zero.
unfoldable pub drain_empty : ℕ → Stream → Stream × Option Called
drain_empty sys_shutdown s =
    let s1 = if s.closing then s else record s { pollout = false } in
    elim (s1.shutdown_req) [
      | none ↦ (s1, none)
      | some number ↦
          let s2 = record s1 { shutdown_req = none; active_reqs = s1.active_reqs - 1 } in
          if s.closing || not s.shut
          then if s.closing
            then (s2, some (record { number = number; error = ecanceled }))
            else if sys_shutdown == 0
            then (record s2 { shut = true }, some (record { number = number; error = ok }))
            else (s2, some (record { number = number; error = sys sys_shutdown }))
          else (s1, none)
    ]

-- `none` is a failed assertion, that nothing is left to be written.
unfoldable pub uv__drain : ℕ → Stream → Option (Stream × Option Called)
uv__drain sys_shutdown s =
    let drained = drain_empty sys_shutdown s in
    if length s.write_queue == 0 then some drained else none

-- `fd_to_send` is whether the file descriptor of the handle to be sent is open, where there is one.
-- `none` is a failed assertion, that there is a buffer.
unfoldable pub uv__check_before_write :
    (nbufs : ℕ) → (ipc : Bool) → (fd_to_send : Option Bool) → Stream → Option Status
uv__check_before_write nbufs ipc fd_to_send s =
    if nbufs == 0
    then none
    else some (
        if not s.fd_open then ebadf else if not s.writable then epipe else elim fd_to_send [
          | none ↦ ok
          | some fd ↦ if not ipc then einval else if not fd then ebadf else ok
        ])
