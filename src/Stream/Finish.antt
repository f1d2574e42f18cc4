-- ===== src/Stream/Finish.antt =====
-- unix/stream.c: the rounds of uv__write, one by one.
use mathlib.Core.List.{append_assoc, append-nil}
use sebbu_c_libuv.Base.{
  ℕ, suc, ◌+◌, ◌-◌, ◌<◌, ◌≤◌, ◌≡◌, ◌≢◌, refl, sym, ap, ◌∙◌, true, false, Option, none, some, List,
  [], ◌∷◌, ◌++◌, length, length-append, take, drop, take-drop, length-drop, arith,
}
use sebbu_c_libuv.Stream.{Status, ok, Req, Stream, flatten, uv__count_bufs, uv__write_req_update}
use sebbu_c_libuv.Stream.Update.{uv__count_bufs-flatten, flatten-uv__write_req_update}
use sebbu_c_libuv.Stream.Valid.{
  queue_bytes, left_of, IsLive, IsStream, queue_data, numbers, queue_bytes-append, numbers-append,
}

-- Requests that were written as a whole: they have no error, and their buffers are freed.
abbrev pub AreWritten : List Req → Type 0
AreWritten [] = Unit
AreWritten (r ∷ rs) = (r.error ≡ ok) × (r.bufs ≡ none) × AreWritten rs

-- How a write ends: with nothing left, waiting for POLLOUT, after one request more than `most`, or on
-- a request that failed, which is the only one that fails and the only one that loses bytes.
pub data Ended (most : ℕ) (g : Stream)
    : (written failures : List Req) → (lost : List ℕ) → Type 0 where
  emptied : {written : List Req} → g.write_queue ≡ [] → Ended most g written [] []
  waiting : {written : List Req} → g.pollout ≡ true → Ended most g written [] []
  exhausted : {written : List Req} → length written ≡ suc most → Ended most g written [] []
  stopped :
      {written : List Req} {r : Req}
      → r.error ≢ ok
      → g.pollout ≡ false
      → Ended most g written (r ∷ []) (left_of r)

-- What a write that returns has done. The data of the queue is what went to the kernel now, what a
-- request that failed has left, and what is still queued, in this order. The watcher is fed if a
-- request was completed, so that the callbacks run.
pub record Wrote (most owed k : ℕ) (s g : Stream) : Type 0 where
  pub valid : IsStream owed k g
  pub now : List ℕ
  pub lost : List ℕ
  pub wire : g.wire ≡ s.wire ++ now
  pub split : queue_data s.write_queue ≡ now ++ (lost ++ queue_data g.write_queue)
  pub written : List Req
  pub failures : List Req
  pub completed : g.write_completed_queue ≡ s.write_completed_queue ++ (written ++ failures)
  pub order : numbers s.write_queue ≡ numbers (written ++ failures) ++ numbers g.write_queue
  pub fine : AreWritten written
  pub ended : Ended most g written failures lost
  pub feeds : 0 < length (written ++ failures) → g.fed ≡ true
  pub keeps_fed : s.fed ≡ true → g.fed ≡ true

-- The state after the rest of a request was written, and after a request failed.
abbrev pub finish_state : Stream → Req → List Req → List (List ℕ) → ℕ → ℕ → Stream
finish_state s r rest bufs n calls = record s {
  calls = calls;
  wire = s.wire ++ take n (flatten bufs);
  write_queue = rest;
  write_queue_size = s.write_queue_size - n;
  write_completed_queue =
      s.write_completed_queue ++ record r { bufs = none; send_handle = none } ∷ [];
  fed = true;
}

abbrev pub fail_state : Stream → Req → List Req → Status → ℕ → Stream
fail_state s r rest e calls = record s {
  calls = calls;
  write_queue = rest;
  write_completed_queue = s.write_completed_queue ++ record r { error = e } ∷ [];
  fed = true;
  pollout = false;
}

abbrev size_opt : Option (List (List ℕ)) → ℕ
size_opt none = 0
size_opt (some bs) = uv__count_bufs bs

module _ (owed k : ℕ) (s : Stream) (v : IsStream owed k s) where
  pub stay-Wrote : (most : ℕ) → s.write_queue ≡ [] → Wrote most owed k s s
  stay-Wrote most e = record {
    valid = v;
    now = [];
    lost = [];
    wire = sym (append-nil s.wire);
    split = refl;
    written = [];
    failures = [];
    completed = sym (append-nil s.write_completed_queue);
    order = refl;
    fine = tt;
    ended = emptied e;
    feeds = λ h. absurd (omega arith);
    keeps_fed = λ h. h;
  }

  -- A round without bytes that waits for the kernel.
  pub wait-Wrote :
      (most calls : ℕ) → Wrote most owed k s (record s { calls = calls; pollout = true })
  wait-Wrote most calls = record {
    valid = record { size = v.size; live = v.live; counted = v.counted };
    now = [];
    lost = [];
    wire = sym (append-nil s.wire);
    split = refl;
    written = [];
    failures = [];
    completed = sym (append-nil s.write_completed_queue);
    order = refl;
    fine = tt;
    ended = waiting refl;
    feeds = λ h. absurd (omega arith);
    keeps_fed = λ h. h;
  }

  module _ (r : Req) (rest : List Req) (bufs : List (List ℕ)) (head : s.write_queue ≡ r ∷ rest)
      (has_bufs : r.bufs ≡ some bufs) where
    size_here :
        s.write_queue_size
        ≡ uv__count_bufs bufs + queue_bytes rest + queue_bytes s.write_completed_queue + owed
    size_here = v.size ∙ rw (head, has_bufs)

    data_here : queue_data s.write_queue ≡ flatten bufs ++ queue_data rest
    data_here = rw (head, has_bufs)

    IsLive-here : IsLive (r ∷ rest)
    IsLive-here = rw head at (v.live)

    counted_here : suc (length rest) + length s.write_completed_queue + k ≡ s.active_reqs
    counted_here = rw head at (v.counted)

    -- A round that hands over a part of the request.
    pub part-Wrote :
        (most n calls : ℕ)
        → n ≤ uv__count_bufs bufs
        → Wrote most owed k s (record s {
          calls = calls;
          wire = s.wire ++ take n (flatten bufs);
          write_queue =
              record r { bufs = some (uv__write_req_update bufs n); send_handle = none } ∷ rest;
          write_queue_size = s.write_queue_size - n;
          pollout = true;
        })
    part-Wrote most n calls le =
        let e = flatten-uv__write_req_update bufs n le in
        let left : uv__count_bufs (uv__write_req_update bufs n) ≡ uv__count_bufs bufs - n = omega (
          arith,
          uv__count_bufs-flatten (uv__write_req_update bufs n),
          ap length e,
          length-drop n (flatten bufs),
          uv__count_bufs-flatten bufs,
        ) in
        record {
          valid = record {
            size = omega (arith, size_here, left);
            live = ((uv__write_req_update bufs n, refl), IsLive-here.1, IsLive-here.2);
            counted = counted_here;
          };
          now = take n (flatten bufs);
          lost = [];
          wire = refl;
          split =
              data_here
              ∙ ap (λ x. x ++ queue_data rest) (sym (take-drop n (flatten bufs)))
              ∙ append_assoc (take n (flatten bufs)) (drop n (flatten bufs)) (queue_data rest)
              ∙ ap (λ x. take n (flatten bufs) ++ (x ++ queue_data rest)) (sym e);
          written = [];
          failures = [];
          completed = sym (append-nil s.write_completed_queue);
          order = ap numbers head;
          fine = tt;
          ended = waiting refl;
          feeds = λ h. absurd (omega arith);
          keeps_fed = λ h. h;
        }

    -- A round that hands over all that the request has left.
    pub finish-Wrote :
        (n calls : ℕ)
        → n ≤ uv__count_bufs bufs
        → uv__write_req_update bufs n ≡ []
        → r.error ≡ ok
        → (w : Wrote 0 owed k s (finish_state s r rest bufs n calls)) × (w.lost ≡ [])
          × (w.failures ≡ [])
          × (length w.written ≡ 1)
    finish-Wrote n calls le all no_error =
        let e = flatten-uv__write_req_update bufs n le in
        let nothing : drop n (flatten bufs) ≡ [] = sym e ∙ ap flatten all in
        let whole : take n (flatten bufs) ≡ flatten bufs =
          sym (append-nil (take n (flatten bufs)))
          ∙ ap (λ x. take n (flatten bufs) ++ x) (sym nothing)
          ∙ take-drop n (flatten bufs) in
        let exact : n ≡ uv__count_bufs bufs =
          omega
            (arith, ap length nothing, length-drop n (flatten bufs), uv__count_bufs-flatten bufs) in
        let r' = record r { bufs = none; send_handle = none } in
        (
          record {
            valid = record {
              size = omega (arith, size_here, queue_bytes-append s.write_completed_queue (r' ∷ []));
              live = IsLive-here.2;
              counted =
                  omega (arith, counted_here, length-append s.write_completed_queue (r' ∷ []));
            };
            now = take n (flatten bufs);
            lost = [];
            wire = refl;
            split = data_here ∙ ap (λ x. x ++ queue_data rest) (sym whole);
            written = r' ∷ [];
            failures = [];
            completed = refl;
            order = ap numbers head;
            fine = (no_error, refl, tt);
            ended = exhausted refl;
            feeds = λ h. refl;
            keeps_fed = λ h. refl;
          },
          refl,
          refl,
          refl,
        )

    -- A round that fails.
    pub fail-Wrote :
        (most : ℕ) (e : Status) (calls : ℕ)
        → e ≢ ok
        → Wrote most owed k s (fail_state s r rest e calls)
    fail-Wrote most e calls bad =
        let r' = record r { error = e } in
        record {
          valid = record {
            size = omega (
              arith,
              size_here,
              queue_bytes-append s.write_completed_queue (r' ∷ []),
              ap size_opt has_bufs,
            );
            live = IsLive-here.2;
            counted = omega (arith, counted_here, length-append s.write_completed_queue (r' ∷ []));
          };
          now = [];
          lost = left_of r';
          wire = sym (append-nil s.wire);
          split = ap queue_data head;
          written = [];
          failures = r' ∷ [];
          completed = refl;
          order = ap numbers head;
          fine = tt;
          ended = stopped bad refl;
          feeds = λ h. refl;
          keeps_fed = λ h. refl;
        }

AreWritten-append : (rs ss : List Req) → AreWritten rs → AreWritten ss → AreWritten (rs ++ ss)
AreWritten-append [] ss a b = b
AreWritten-append (r ∷ rs) ss a b = (a.0, a.1, AreWritten-append rs ss a.2 b)

Ended-more :
    (most : ℕ) (g : Stream) (before written failures : List Req) (lost : List ℕ)
    → length before ≡ 1
    → Ended most g written failures lost
    → Ended (suc most) g (before ++ written) failures lost
Ended-more most g before written _ _ one (emptied e) = emptied e
Ended-more most g before written _ _ one (waiting e) = waiting e
Ended-more most g before written _ _ one (exhausted e) =
    exhausted (omega (arith, length-append before written))
Ended-more most g before written _ _ one (stopped bad e) = stopped bad e

-- A round that finished a request, and the rounds behind it.
pub Wrote-trans :
    (most owed k : ℕ) (s a g : Stream) (p : Wrote 0 owed k s a)
    → p.lost ≡ []
    → p.failures ≡ []
    → length p.written ≡ 1
    → Wrote most owed k a g
    → Wrote (suc most) owed k s g
Wrote-trans most owed k s a g p none_lost none_failed one q =
    let all = q.written ++ q.failures in
    let first : p.written ++ p.failures ≡ p.written =
      ap (λ x. p.written ++ x) none_failed ∙ append-nil p.written in
    let fed : a.fed ≡ true = p.feeds (omega (arith, one, ap length first)) in
    record {
      valid = q.valid;
      now = p.now ++ q.now;
      lost = q.lost;
      wire = q.wire ∙ ap (λ x. x ++ q.now) p.wire ∙ append_assoc s.wire p.now q.now;
      split =
          p.split
          ∙ rw (none_lost, q.split)
              (sym (append_assoc p.now q.now (q.lost ++ queue_data g.write_queue)));
      written = p.written ++ q.written;
      failures = q.failures;
      completed =
          q.completed
          ∙ ap (λ x. x ++ all) (p.completed ∙ ap (λ x. s.write_completed_queue ++ x) first)
          ∙ append_assoc s.write_completed_queue p.written all
          ∙ ap (λ x. s.write_completed_queue ++ x)
              (sym (append_assoc p.written q.written q.failures));
      order =
          p.order
          ∙ rw (first, q.order)
              (sym (append_assoc (numbers p.written) (numbers all) (numbers g.write_queue)))
          ∙ ap (λ x. x ++ numbers g.write_queue)
              (sym (numbers-append p.written all)
                ∙ ap numbers (sym (append_assoc p.written q.written q.failures)));
      fine = AreWritten-append p.written q.written p.fine q.fine;
      ended = Ended-more most g p.written q.written q.failures q.lost one q.ended;
      feeds = λ h. q.keeps_fed fed;
      keeps_fed = λ h. q.keeps_fed fed;
    }
