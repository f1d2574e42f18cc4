-- ===== src/Stream/Accept.antt =====
-- unix/stream.c: what uv_write2 does on every branch.
use sebbu_c_libuv.Base.{
  ℕ, ◌+◌, ◌<◌, ◌≡◌, ◌≢◌, ◌⊎◌, refl, Bool, true, false, Option, some, List, [], ◌∷◌, ◌++◌, length,
  length-append, arith,
}
use sebbu_c_libuv.Stream.{
  Status, ok, ebadf, epipe, einval, enomem, Answer, Stream, flatten, uv__check_before_write,
}
use sebbu_c_libuv.Stream.Valid.{IsStream, queue_bytes-append, IsLive-append}
use sebbu_c_libuv.Stream.Finish.{Wrote}
use sebbu_c_libuv.Stream.Api.{SendHandle, fd_of, new_req, append}

abbrev pub registered : Stream → Stream
registered s = record s { active_reqs = s.active_reqs + 1 }

pub append-IsStream :
    (owed k number : ℕ) (bufs : List (List ℕ)) (h : Option SendHandle) (s : Stream)
    → IsStream owed k s
    → IsStream owed k (append (new_req number bufs h) bufs (registered s))
append-IsStream owed k number bufs h s v =
    let r = new_req number bufs h in
    record {
      size = omega (arith, v.size, queue_bytes-append s.write_queue (r ∷ []));
      live = IsLive-append s.write_queue (r ∷ []) v.live ((bufs, refl), refl, tt);
      counted = omega (arith, v.counted, length-append s.write_queue (r ∷ []));
    }

module _ (kernel : ℕ → Answer) (iovmax : ℕ) (memory ipc : Bool) (fuel number : ℕ)
    (bufs : List (List ℕ)) (h : Option SendHandle) (s : Stream) where
  -- The errors of the check, with their conditions.
  pub data Rejected : Status → Type 0 where
    no_file : s.fd_open ≡ false → Rejected ebadf
    not_writable : s.fd_open ≡ true → s.writable ≡ false → Rejected epipe
    not_ipc :
        {x : SendHandle}
        → s.fd_open ≡ true
        → s.writable ≡ true
        → h ≡ some x
        → ipc ≡ false
        → Rejected einval
    no_sent_file :
        {x : SendHandle}
        → s.fd_open ≡ true
        → s.writable ≡ true
        → h ≡ some x
        → ipc ≡ true
        → x.fd_open ≡ false
        → Rejected ebadf

  -- What the check lets through.
  pub record Accepted : Type 0 where
    pub file : s.fd_open ≡ true
    pub writable : s.writable ≡ true
    pub sendable : (x : SendHandle) → h ≡ some x → (ipc ≡ true) × (x.fd_open ≡ true)

  -- The request is the last one of the queue, with its bytes and its count, and nothing is written.
  pub record Queued (owed k : ℕ) (g : Stream) : Type 0 where
    pub queue : g.write_queue ≡ s.write_queue ++ new_req number bufs h ∷ []
    pub bytes : g.write_queue_size ≡ s.write_queue_size + length (flatten bufs)
    pub count : g.active_reqs ≡ s.active_reqs + 1
    pub wire : g.wire ≡ s.wire
    pub valid : IsStream owed k g

  -- What `uv_write2` may come to.
  pub data Outcome (owed k : ℕ) : Status → Stream → Type 0 where
    rejected : {e : Status} → Rejected e → Outcome owed k e s
    no_memory :
        {g : Stream}
        → Accepted
        → 4 < length bufs
        → memory ≡ false
        → g.write_queue ≡ s.write_queue
        → g.active_reqs ≡ s.active_reqs + 1
        → IsStream owed (k + 1) g
        → Outcome owed k enomem g
    connecting :
        {g : Stream}
        → Accepted
        → s.connect_req ≡ true
        → Queued owed k g
        → g.pollout ≡ s.pollout
        → Outcome owed k ok g
    queued :
        {g : Stream}
        → Accepted
        → s.connect_req ≡ false
        → s.write_queue_size ≢ 0
        → Queued owed k g
        → g.pollout ≡ true
        → Outcome owed k ok g
    tried :
        {a g : Stream}
        → Accepted
        → s.connect_req ≡ false
        → s.write_queue_size ≡ 0
        → Queued owed k a
        → Wrote 32 owed k a g
        → Outcome owed k ok g

  module _ (good : uv__check_before_write (length bufs) ipc (fd_of h) s ≡ some ok) where
    abbrev s2 : Stream
    s2 = append (new_req number bufs h) bufs (registered s)

module _ (kernel : ℕ → Answer) (iovmax : ℕ) (memory ipc : Bool) (fuel number : ℕ)
    (bufs : List (List ℕ)) (s : Stream) where
  abbrev CheckOf : Option SendHandle → Type 0
  CheckOf h =
      ((e : Status) × (uv__check_before_write (length bufs) ipc (fd_of h) s ≡ some e)
        × (e ≢ ok)
        × Rejected kernel iovmax memory ipc fuel number bufs h s e)
      ⊎ ((uv__check_before_write (length bufs) ipc (fd_of h) s ≡ some ok)
          × Accepted kernel iovmax memory ipc fuel number bufs h s)
