-- ===== src/Stream/Destroy.antt =====
-- unix/stream.c: the end of a stream.
use sebbu_c_libuv.Base.{
  Option, Option-cases, Bool-cases, inl, inr, ◌≤◌, true, none, some, if◌then◌else◌, ℕ, suc, ◌+◌,
  ◌-◌, ◌≡◌, refl, sym, ap, ◌∙◌, false, List, [], ◌∷◌, ◌++◌, length, length-append, arith,
}
use sebbu_c_libuv.Stream.{
  Status, ecanceled, Req, Stream, size_of, callbacks_loop, uv__write_callbacks, flush_loop,
  uv__stream_flush_write_queue, drain_empty, uv__drain,
}
use sebbu_c_libuv.Stream.Valid.{queue_bytes, IsStream, queue_bytes-append}
use sebbu_c_libuv.Stream.Api.{
  Call, connected, written, drained, writes_of, cancel_connect, drain_calls, uv__stream_destroy,
}
use mathlib.Core.List.{append_assoc, append-nil}
use sebbu_c_libuv.Stream.Callbacks.{calls_of, with_error, callbacks_loop-calls}

flush_loop_lem :
    (e : Status) (q : List Req) (s : Stream)
    → flush_loop e q s ≡ record s {
      write_queue = [];
      write_completed_queue = s.write_completed_queue ++ with_error e q;
    }
unfolding flush_loop
flush_loop_lem e [] s =
    ap (λ x. record s { write_queue = []; write_completed_queue = x })
      (sym (append-nil s.write_completed_queue))
flush_loop_lem e (r ∷ rest) s =
    flush_loop_lem e rest (record s {
      write_queue = rest;
      write_completed_queue = s.write_completed_queue ++ record r { error = e } ∷ [];
    })
    ∙ ap (λ x. record s { write_queue = []; write_completed_queue = x })
        (append_assoc s.write_completed_queue (record r { error = e } ∷ []) (with_error e rest))

queue_bytes-with_error : (e : Status) (q : List Req) → queue_bytes (with_error e q) ≡ queue_bytes q
queue_bytes-with_error e [] = refl
queue_bytes-with_error e (r ∷ rest) = ap (λ x. size_of r + x) (queue_bytes-with_error e rest)

length-with_error : (e : Status) (q : List Req) → length (with_error e q) ≡ length q
length-with_error e [] = refl
length-with_error e (r ∷ rest) = ap suc (length-with_error e rest)

-- A callback that leaves a stream without file descriptor as it is, as all that writes to it or shuts
-- it down does, and starts no request.
pub record Untouched (s t : Stream) : Type 0 where
  pub write_queue : t.write_queue ≡ s.write_queue
  pub completed : t.write_completed_queue ≡ s.write_completed_queue
  pub size : t.write_queue_size ≡ s.write_queue_size
  pub fd_open : t.fd_open ≡ s.fd_open
  pub closing : t.closing ≡ s.closing
  pub connect_req : t.connect_req ≡ s.connect_req
  pub shutdown_req : t.shutdown_req ≡ s.shutdown_req
  pub active_reqs : t.active_reqs ≡ s.active_reqs

abbrev pub LeavesClosed : (Call → Stream → Stream) → Type 0
LeavesClosed react = (c : Call) (s : Stream) → s.fd_open ≡ false → Untouched s (react c s)

-- The requests beside the write requests.
abbrev shutdown_call : Option ℕ → List Call
shutdown_call none = []
shutdown_call (some n) = drained n ecanceled ∷ []

abbrev pub shutdown_calls : Stream → List Call
shutdown_calls s = shutdown_call s.shutdown_req

abbrev pub connect_calls : Stream → List Call
connect_calls s = if s.connect_req then connected ecanceled ∷ [] else []

abbrev pub all_calls : Stream → List Call
all_calls s =
    connect_calls s
    ++ (writes_of (calls_of (s.write_completed_queue ++ with_error ecanceled s.write_queue))
        ++ shutdown_calls s)

-- The stream `t` after the callbacks of `pq` were called on `s`.
record After (pq : List Req) (s t : Stream) : Type 0 where
  write_queue : t.write_queue ≡ s.write_queue
  completed : t.write_completed_queue ≡ s.write_completed_queue
  size : t.write_queue_size + queue_bytes pq ≡ s.write_queue_size
  fd_open : t.fd_open ≡ s.fd_open
  closing : t.closing ≡ s.closing
  connect_req : t.connect_req ≡ s.connect_req
  shutdown_req : t.shutdown_req ≡ s.shutdown_req
  active_reqs : t.active_reqs + length pq ≡ s.active_reqs

module _ (react : Call → Stream → Stream) (leaves : LeavesClosed react) where
  abbrev on_write : ℕ → Status → Stream → Stream
  on_write n e = react (written n e)

  callbacks_loop-After :
      (pq : List Req) (s : Stream)
      → s.fd_open ≡ false
      → queue_bytes pq ≤ s.write_queue_size
      → length pq ≤ s.active_reqs
      → After pq s ((callbacks_loop on_write pq s).0)
  unfolding callbacks_loop
  callbacks_loop-After [] s no_fd bytes reqs = record {
    write_queue = refl;
    completed = refl;
    size = omega arith;
    fd_open = refl;
    closing = refl;
    connect_req = refl;
    shutdown_req = refl;
    active_reqs = omega arith;
  }
  callbacks_loop-After (r ∷ pq) s no_fd bytes reqs =
      let s1 = record s {
        active_reqs = s.active_reqs - 1;
        write_queue_size = s.write_queue_size - size_of r;
      } in
      let u = leaves (written r.number r.error) s1 no_fd in
      let a =
        callbacks_loop-After pq (on_write r.number r.error s1) (u.fd_open ∙ no_fd)
          (omega (arith, u.size)) (omega (arith, u.active_reqs)) in
      record {
        write_queue = a.write_queue ∙ u.write_queue;
        completed = a.completed ∙ u.completed;
        size = omega (arith, a.size, u.size);
        fd_open = a.fd_open ∙ u.fd_open;
        closing = a.closing ∙ u.closing;
        connect_req = a.connect_req ∙ u.connect_req;
        shutdown_req = a.shutdown_req ∙ u.shutdown_req;
        active_reqs = omega (arith, a.active_reqs, u.active_reqs);
      }

  -- The connect request.
  record Connected (s t : Stream) : Type 0 where
    write_queue : t.write_queue ≡ s.write_queue
    completed : t.write_completed_queue ≡ s.write_completed_queue
    size : t.write_queue_size ≡ s.write_queue_size
    fd_open : t.fd_open ≡ s.fd_open
    closing : t.closing ≡ s.closing
    connect_req : t.connect_req ≡ false
    shutdown_req : t.shutdown_req ≡ s.shutdown_req
    active_reqs : t.active_reqs ≡ s.active_reqs - length (connect_calls s)

  cancel_connect-Connected :
      (s : Stream)
      → s.fd_open ≡ false
      → (t : Stream) × (cancel_connect react s ≡ (t, connect_calls s)) × Connected s t
  unfolding cancel_connect
  cancel_connect-Connected s no_fd =
      let s0 = record s { active_reqs = s.active_reqs - 1 } in
      let u = leaves (connected ecanceled) s0 no_fd in
      elim (Bool-cases s.connect_req) [
        | inr c ↦ (
          s,
          simp (cancel_connect, c),
          record {
            write_queue = refl;
            completed = refl;
            size = refl;
            fd_open = refl;
            closing = refl;
            connect_req = c;
            shutdown_req = refl;
            active_reqs = rw c (omega arith);
          },
        )
        | inl c ↦ (
          record (react (connected ecanceled) s0) { connect_req = false },
          simp (cancel_connect, c),
          record {
            write_queue = u.write_queue;
            completed = u.completed;
            size = u.size;
            fd_open = u.fd_open;
            closing = u.closing;
            connect_req = refl;
            shutdown_req = u.shutdown_req;
            active_reqs = u.active_reqs ∙ rw c refl;
          },
        )
      ]

  -- The shutdown request of a closing stream.
  record Drained (s t : Stream) : Type 0 where
    write_queue : t.write_queue ≡ s.write_queue
    completed : t.write_completed_queue ≡ s.write_completed_queue
    size : t.write_queue_size ≡ s.write_queue_size
    connect_req : t.connect_req ≡ s.connect_req
    shutdown_req : t.shutdown_req ≡ none
    active_reqs : t.active_reqs ≡ s.active_reqs - length (shutdown_calls s)

  drain_calls-Drained :
      (s : Stream)
      → s.fd_open ≡ false
      → s.closing ≡ true
      → s.write_queue ≡ []
      → (t : Stream) × (drain_calls react s ≡ some (t, shutdown_calls s)) × Drained s t
  unfolding drain_calls uv__drain drain_empty
  drain_calls-Drained s no_fd closing empty = elim (Option-cases s.shutdown_req) [
    | inl n ↦ (
      s,
      rw n (simp (drain_calls, uv__drain, drain_empty, closing, empty, n)),
      record {
        write_queue = refl;
        completed = refl;
        size = refl;
        connect_req = refl;
        shutdown_req = n;
        active_reqs = rw n (omega arith);
      },
    )
    | inr (n, e) ↦
        let s0 = record s { shutdown_req = none; active_reqs = s.active_reqs - 1 } in
        let u = leaves (drained n ecanceled) s0 no_fd in
        (
          react (drained n ecanceled) s0,
          rw e (simp (drain_calls, uv__drain, drain_empty, closing, empty, e)),
          record {
            write_queue = u.write_queue;
            completed = u.completed;
            size = u.size;
            connect_req = u.connect_req;
            shutdown_req = u.shutdown_req;
            active_reqs = u.active_reqs ∙ rw e refl;
          },
        )
  ]

-- Nothing is left of the stream's requests, and the loop counts `k` requests.
pub record Destroyed (k : ℕ) (g : Stream) : Type 0 where
  pub write_queue : g.write_queue ≡ []
  pub completed : g.write_completed_queue ≡ []
  pub size : g.write_queue_size ≡ 0
  pub connect_req : g.connect_req ≡ false
  pub shutdown_req : g.shutdown_req ≡ none
  pub active_reqs : g.active_reqs ≡ k

destroy_run :
    (react : Call → Stream → Stream) (s s1 g : Stream) (first last : List Call)
    → s.pollout ≡ false
    → s.closed ≡ true
    → cancel_connect react s ≡ (s1, first)
    → drain_calls react (
        (uv__write_callbacks
          (λ n e. react (written n e))
          (uv__stream_flush_write_queue ecanceled s1)).0)
      ≡ some (g, last)
    → g.write_queue_size ≡ 0
    → uv__stream_destroy react s
      ≡ some (
        g,
        first
            ++ (writes_of (
                  (uv__write_callbacks
                    (λ n e. react (written n e))
                    (uv__stream_flush_write_queue ecanceled s1)).1)
                ++ last),
      )
unfolding uv__stream_destroy
destroy_run react s s1 g first last p c e d z = simp (uv__stream_destroy, p, c, e, d, z)

-- The end of a closed stream calls the callbacks of all its requests, once each, with the callbacks
-- leaving the stream as it is and starting no request: first that of the connect request, with
-- UV_ECANCELED, then those of the writes that were done, with their error, and of those that were
-- still to be written, with UV_ECANCELED, in the order they were handed in, and last that of the
-- shutdown request, with UV_ECANCELED. No request and no byte is left, as the assertion at the end
-- says, and the loop counts the `k` other requests again.
pub uv__stream_destroy-calls :
    (k : ℕ) (react : Call → Stream → Stream) (s : Stream)
    → LeavesClosed react
    → s.fd_open ≡ false
    → s.closing ≡ true
    → s.closed ≡ true
    → s.pollout ≡ false
    → IsStream 0 (length (connect_calls s) + length (shutdown_calls s) + k) s
    → (g : Stream) × (uv__stream_destroy react s ≡ some (g, all_calls s)) × Destroyed k g
unfolding uv__stream_flush_write_queue uv__write_callbacks
uv__stream_destroy-calls k react s leaves no_fd closing closed no_poll v =
    let (s1, ran1, c) = cancel_connect-Connected react leaves s no_fd in
    let all = s.write_completed_queue ++ with_error ecanceled s.write_queue in
    let s2 = record s1 { write_queue = []; write_completed_queue = all } in
    let s3 = record s1 { write_queue = []; write_completed_queue = [] } in
    let flushed : uv__stream_flush_write_queue ecanceled s1 ≡ s2 =
      flush_loop_lem ecanceled s1.write_queue s1 ∙ rw (c.write_queue, c.completed) refl in
    let on : ℕ → Status → Stream → Stream = λ n e. react (written n e) in
    let called : (uv__write_callbacks on s2).1 ≡ calls_of all = callbacks_loop-calls on all s3 in
    let bytes : queue_bytes all ≡ s.write_queue_size = omega (
      arith,
      v.size,
      queue_bytes-append s.write_completed_queue (with_error ecanceled s.write_queue),
      queue_bytes-with_error ecanceled s.write_queue,
    ) in
    let reqs : length all + length (shutdown_calls s) + k ≡ s1.active_reqs = omega (
      arith,
      v.counted,
      c.active_reqs,
      length-append s.write_completed_queue (with_error ecanceled s.write_queue),
      length-with_error ecanceled s.write_queue,
    ) in
    let a =
      callbacks_loop-After react leaves all s3 (c.fd_open ∙ no_fd) (omega (arith, bytes, c.size))
        (omega (arith, reqs)) in
    let s4 = (callbacks_loop on all s3).0 in
    let (g, ran2, d) =
      drain_calls-Drained react leaves s4 (a.fd_open ∙ c.fd_open ∙ no_fd)
        (a.closing ∙ c.closing ∙ closing) a.write_queue in
    let same : shutdown_calls s4 ≡ shutdown_calls s =
      ap shutdown_call (a.shutdown_req ∙ c.shutdown_req) in
    let z : g.write_queue_size ≡ 0 = omega (arith, d.size, a.size, c.size, bytes) in
    (
      g,
      destroy_run react s s1 g (connect_calls s) (shutdown_calls s4) no_poll closed ran1
            (rw flushed ran2) z
          ∙ rw (flushed, called, same) refl,
      record {
        write_queue = d.write_queue ∙ a.write_queue;
        completed = d.completed ∙ a.completed;
        size = z;
        connect_req = d.connect_req ∙ a.connect_req ∙ c.connect_req;
        shutdown_req = d.shutdown_req;
        active_reqs = omega (arith, d.active_reqs, a.active_reqs, reqs, ap length same);
      },
    )
