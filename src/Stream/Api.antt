-- ===== src/Stream/Api.antt =====
-- unix/stream.c: the functions that a program calls to write and to shut down, and the end of a
-- stream.
use sebbu_c_libuv.Base.{
  ℕ, ◌+◌, ◌-◌, Bool, true, false, not, ◌&&◌, ◌||◌, Option, none, some, List, [], ◌∷◌, ◌++◌, length,
  ltb, ◌==◌, if◌then◌else◌,
}
use sebbu_c_libuv.Stream.{
  Status, ok, ecanceled, enomem, eagain, enotconn, Answer, Req, Stream, uv__count_bufs, Tried,
  refused, uv__try_write, uv__write, Called, uv__write_callbacks, uv__stream_flush_write_queue,
  uv__drain, uv__check_before_write,
}

-- What `uv_write2` and `uv_try_write2` are told about the handle to be sent: whether its file
-- descriptor is open and whether it is closing.
pub record SendHandle : Type 0 where
  pub fd_open : Bool
  pub closing : Bool

abbrev pub fd_of : Option SendHandle → Option Bool
fd_of none = none
fd_of (some h) = some h.fd_open

abbrev pub closing_of : Option SendHandle → Option Bool
closing_of none = none
closing_of (some h) = some h.closing

-- The request as it is appended.
abbrev pub new_req : ℕ → List (List ℕ) → Option SendHandle → Req
new_req number bufs send_handle = record {
  number = number;
  bufs = some bufs;
  send_handle = closing_of send_handle;
  error = ok;
}

abbrev pub append : Req → List (List ℕ) → Stream → Stream
append r bufs s = record s {
  write_queue_size = s.write_queue_size + uv__count_bufs bufs;
  write_queue = s.write_queue ++ r ∷ [];
}

module _ (kernel : ℕ → Answer) (iovmax : ℕ) where
  -- `none` is a write that needs more rounds, or a failed assertion. `memory` is whether
  -- `uv__malloc` finds room for more than four buffers.
  unfoldable pub uv_write2 :
      (memory ipc : Bool)
      → (fuel number : ℕ) → List (List ℕ)
      → Option SendHandle
      → Stream
      → Option (Status × Stream)
  uv_write2 memory ipc fuel number bufs send_handle s =
      elim (uv__check_before_write (length bufs) ipc (fd_of send_handle) s) [
        | none ↦ none
        | some ok ↦
            let s1 = record s { active_reqs = s.active_reqs + 1 } in
            let s2 = append (new_req number bufs send_handle) bufs s1 in
            let written = uv__write kernel iovmax fuel s2 in
            if ltb 4 (length bufs) && not memory
            then some (enomem, s1)
            else if s.connect_req
            then some (ok, s2)
            else if s.write_queue_size == 0
            then elim written [ none ↦ none | some g ↦ some (ok, g) ]
            else if s.blocking_writes
            then none
            else some (ok, record s2 { pollout = true })
        | some e ↦ some (e, s)
      ]

  -- The handle to be sent is not checked. `none` is a failed assertion.
  unfoldable pub uv_try_write2 :
      (ipc : Bool) → List (List ℕ) → Option SendHandle → Stream → Option (Tried × Stream)
  uv_try_write2 ipc bufs send_handle s =
      if s.connect_req || not (s.write_queue_size == 0)
      then some (refused eagain, s)
      else elim (uv__check_before_write (length bufs) ipc none s) [
        | none ↦ none
        | some ok ↦ some (uv__try_write kernel iovmax bufs (closing_of send_handle) s)
        | some e ↦ some (refused e, s)
      ]

unfoldable pub uv_shutdown : ℕ → Stream → Status × Stream
uv_shutdown number s =
    let shutting : Bool = elim (s.shutdown_req) [ none ↦ false | some _ ↦ true ] in
    let s1 = record s {
      active_reqs = s.active_reqs + 1;
      shutdown_req = some number;
      writable = false;
    } in
    if not s.writable || s.shut || shutting || s.closing
    then (enotconn, s)
    else (ok, if length s.write_queue == 0 then record s1 { fed = true } else s1)

-- A call that the end of a stream makes: of the callback of its connect request, of a write request
-- or of its shutdown request.
pub data Call : Type 0 where
  connected : Status → Call
  written : ℕ → Status → Call
  drained : ℕ → Status → Call

abbrev pub writes_of : List Called → List Call
writes_of [] = []
writes_of (c ∷ cs) = written c.number c.error ∷ writes_of cs

-- `react` is what a callback does to the stream.
module _ (react : Call → Stream → Stream) where
  -- The first part of `uv__stream_destroy`.
  unfoldable pub cancel_connect : Stream → Stream × List Call
  cancel_connect s =
      if s.connect_req
      then (
        record (react (connected ecanceled) (record s { active_reqs = s.active_reqs - 1 })) {
          connect_req = false;
        },
        connected ecanceled ∷ [],
      )
      else (s, [])

  -- The last part: `uv__drain` on what the write callbacks left, and the callback of the shutdown
  -- request.
  unfoldable pub drain_calls : Stream → Option (Stream × List Call)
  drain_calls s = elim (uv__drain 0 s) [
    | none ↦ none
    | some (g, none) ↦ some (g, [])
    | some (g, some c) ↦ some (react (drained c.number c.error) g, drained c.number c.error ∷ [])
  ]

  -- The calls in order. `none` is a failed assertion: the stream waits for POLLOUT, is not closed, or
  -- bytes are left. Whether it waits for POLLIN is not seen here.
  unfoldable pub uv__stream_destroy : Stream → Option (Stream × List Call)
  uv__stream_destroy s =
      let (s1, first) = cancel_connect s in
      let (s2, called) =
        uv__write_callbacks (λ n e. react (written n e))
          (uv__stream_flush_write_queue ecanceled s1) in
      let end : Option (Stream × List Call) = elim (drain_calls s2) [
        | none ↦ none
        | some (g, last) ↦
            let log = first ++ (writes_of called ++ last) in
            if g.write_queue_size == 0 then some (g, log) else none
      ] in
      if s.pollout || not s.closed then none else end
