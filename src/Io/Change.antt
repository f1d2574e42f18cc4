-- ===== src/Io/Change.antt =====
-- unix/core.c: uv__io_start and uv__io_stop.
use sebbu_c_libuv.Base.{
  ◌&&◌, ltb, ℕ, ◌+◌, ◌-◌, ◌≤◌, ◌<◌, ◌≡◌, ◌≢◌, refl, sym, ap, ◌∙◌, true, false, some, leb, ◌==◌,
  ==_iff, arith, Bool-cases, inl, inr,
}
use sebbu_c_libuv.Queue.Ring.{◌∈◌, ◌∉◌, IsDistinct}
use sebbu_c_libuv.Io.{
  takes_entry, Events, no_events, any, both, without, same_events, enqueue, Io, Slot, null, watcher,
  Table, put, maybe_resize, is_null, holds, start_watcher, stop_watcher, uv__io_start, uv__io_stop,
  uv__fd_exists,
}
use sebbu_c_libuv.Io.Valid.{IsTable, maybe_resize-Resized}
use sebbu_c_libuv.Io.Entry.{
  ios-IsTable, fill-IsTable, any-both, enqueue-has, idle-IsTable, clear-IsTable, holds-full,
  elsewhere, unlink-out, counted_entry,
}

-- What `uv__io_start` comes to for a watcher with descriptor `fd`.
pub record Started (i fd : ℕ) (events : Events) (t g : Table) : Type 0 where
  pub valid : IsTable g
  pub waits : (g.ios i).pevents ≡ both (t.ios i).pevents events
  pub others :
      (fd' : ℕ)
      → fd' < t.nwatchers
      → is_null (t.watchers fd') ≡ false
      → g.watchers fd' ≡ t.watchers fd'
  pub fresh :
      (fd' : ℕ) → fd' ≢ fd → t.nwatchers ≤ fd' → fd' < g.nwatchers → is_null (g.watchers fd') ≡ true
  pub nulls : (fd' : ℕ) → fd' ≢ fd → fd' < t.nwatchers → g.watchers fd' ≡ t.watchers fd'
  pub same :
      same_events (t.ios i).events (both (t.ios i).pevents events) ≡ true
      → (g.watcher_queue ≡ t.watcher_queue) × (g.nfds ≡ t.nfds)
  pub listed :
      same_events (t.ios i).events (both (t.ios i).pevents events) ≡ false
      → (i ∈ g.watcher_queue) × (uv__fd_exists g fd ≡ true)
  pub placed :
      same_events (t.ios i).events (both (t.ios i).pevents events) ≡ false
      → (fd < t.nwatchers → is_null (t.watchers fd) ≡ true)
      → g.watchers fd ≡ watcher i

start_watcher-Started :
    (garbage : ℕ → Slot) (i fd : ℕ) (events : Events) (t : Table)
    → IsTable t
    → (t.ios i).fd ≡ some fd
    → fd + 3 ≤ 2147483648
    → any events ≡ true
    → Started i fd events t (start_watcher garbage i fd events t)
unfolding start_watcher uv__fd_exists
start_watcher-Started garbage i fd events t v own small some_ =
    let w : Io = record (t.ios i) { pevents = both (t.ios i).pevents events } in
    let t0 = record t { ios = put t.ios i w } in
    let waiting = any-both (t.ios i).pevents events some_ in
    let r =
      maybe_resize-Resized garbage (fd + 1) t0 (omega arith) (ios-IsTable i w t v refl waiting) in
    let t1 = maybe_resize garbage (fd + 1) t0 in
    let t2 = record t1 { watcher_queue = enqueue i t1.watcher_queue } in
    let v2 : IsTable t2 = record {
      counted = r.valid.counted;
      owner = r.valid.owner;
      empty = r.valid.empty;
    } in
    let here : t1.ios i ≡ w = rw r.ios (ground arith) in
    let low : fd < t1.nwatchers = omega (arith, r.room) in
    let queue_same : t1.watcher_queue ≡ t.watcher_queue = r.queue in
    let was_null : (fd < t.nwatchers → is_null (t.watchers fd) ≡ true)
        → is_null (t1.watchers fd) ≡ true =
      λ h. elim (Bool-cases (ltb fd t.nwatchers)) [
        | inl y ↦ ap is_null (r.same fd (ground arith)) ∙ h (ground arith)
        | inr z ↦ r.fresh fd (ground arith) low
      ] in
    elim (Bool-cases (same_events w.events w.pevents)) [
      | inl same ↦ rw same (record {
        valid = r.valid;
        waits = ap (λ x. x.pevents) here;
        others = λ k h f. r.same k h;
        fresh = λ k d h l. r.fresh k h l;
        nulls = λ k d h. r.same k h;
        same = λ e. (queue_same, r.nfds);
        listed = λ n. absurd cc;
        placed = λ n h. absurd cc;
      })
      | inr changed ↦ elim (Bool-cases (is_null (t1.watchers fd))) [
        | inl free ↦
            rw (changed, free)
              (record {
                valid =
                    fill-IsTable i fd t2 v2 low free (ap (λ x. x.fd) here ∙ own)
                      (ap (λ x. any x.pevents) here ∙ waiting);
                waits = ap (λ x. x.pevents) here;
                others = λ k h f.
                    (let ne : (k == fd) ≡ false = elim (Bool-cases (k == fd)) [
                      | inr d ↦ d
                      | inl d ↦
                          let c =
                            ap is_null (sym (r.same k h))
                            ∙ ap (λ x. is_null (t1.watchers x)) ((==_iff k fd).0 d)
                            ∙ free in
                          absurd cc
                    ] in
                      rw ne (r.same k h));
                fresh =
                    λ k d h l. (let ne : (k == fd) ≡ false = ground arith in rw ne (r.fresh k h l));
                nulls = λ k d h. (let ne : (k == fd) ≡ false = ground arith in rw ne (r.same k h));
                same = λ n. absurd cc;
                listed = λ n. (enqueue-has i t1.watcher_queue, ground (arith, low));
                placed = λ n h. ground arith;
              })
        | inr taken ↦
            rw (changed, taken)
              (record {
                valid = v2;
                waits = ap (λ x. x.pevents) here;
                others = λ k h f. r.same k h;
                fresh = λ k d h l. r.fresh k h l;
                nulls = λ k d h. r.same k h;
                same = λ n. absurd cc;
                listed = λ n. (enqueue-has i t1.watcher_queue, ground (arith, taken, low));
                placed = λ n h. absurd (let c = was_null h in cc);
              })
      ]
    ]

-- `uv__io_start`, called with some events, adds them to those that a watcher waits for. If these are
-- not the ones that the kernel knows of already, the watcher is in the queue of those to be told to
-- it, and the table, grown if need be, has an entry for the descriptor: the watcher, if there was none.
-- Otherwise the queue and the number of entries are as before. All other entries are kept, those that
-- the table grew by are NULL, and the table is valid again.
pub uv__io_start-Started :
    (garbage : ℕ → Slot) (i fd : ℕ) (events : Events) (t : Table)
    → IsTable t
    → (t.ios i).fd ≡ some fd
    → fd + 3 ≤ 2147483648
    → any events ≡ true
    → (g : Table) × (uv__io_start garbage i events t ≡ some g) × Started i fd events t g
unfolding uv__io_start
uv__io_start-Started garbage i fd events t v own small some_ =
    let low : ltb fd 2147483647 ≡ true = ground arith in
    (
      start_watcher garbage i fd events t,
      simp (uv__io_start, own, some_, low),
      start_watcher-Started garbage i fd events t v own small some_,
    )

-- What `uv__io_stop` comes to for a watcher with descriptor `fd`.
pub record Stopped (i fd : ℕ) (events : Events) (t g : Table) : Type 0 where
  pub valid : IsTable g
  pub waits : fd < t.nwatchers → (g.ios i).pevents ≡ without (t.ios i).pevents events
  pub others : (fd' : ℕ) → fd' ≢ fd → g.watchers fd' ≡ t.watchers fd'
  pub gone :
      any (without (t.ios i).pevents events) ≡ false
      → fd < t.nwatchers
      → (holds i (g.watchers fd) ≡ false)
        × ((g.ios i).events ≡ no_events)
        × (IsDistinct t.watcher_queue → i ∉ g.watcher_queue)
  pub goes_on :
      any (without (t.ios i).pevents events) ≡ true
      → fd < t.nwatchers
      → (g.watchers ≡ t.watchers)
        × (g.nfds ≡ t.nfds)
        × ((g.ios i).events ≡ (t.ios i).events)
        × (i ∈ g.watcher_queue)
  pub foreign : holds i (t.watchers fd) ≡ false → (g.watchers ≡ t.watchers) × (g.nfds ≡ t.nfds)
  pub beyond : t.nwatchers ≤ fd → g ≡ t

stop_watcher-Stopped :
    (i fd : ℕ) (events : Events) (t : Table)
    → IsTable t
    → (t.ios i).fd ≡ some fd
    → Stopped i fd events t (stop_watcher i fd events t)
unfolding stop_watcher
stop_watcher-Stopped i fd events t v own =
    let left = without (t.ios i).pevents events in
    let w : Io = record (t.ios i) { pevents = left; events = no_events } in
    elim (Bool-cases (leb t.nwatchers fd)) [
      | inl never ↦ rw never (record {
        valid = v;
        waits = λ h. absurd (ground arith);
        others = λ k h. refl;
        gone = λ h k. absurd (ground arith);
        goes_on = λ h k. absurd (ground arith);
        foreign = λ h. (refl, refl);
        beyond = λ h. refl;
      })
      | inr low ↦ elim (Bool-cases (any left)) [
        | inl some_ ↦
            let g = ios-IsTable i (record (t.ios i) { pevents = left }) t v refl some_ in
            rw (low, some_)
              (record {
                valid = record { counted = g.counted; owner = g.owner; empty = g.empty };
                waits = λ h. ground arith;
                others = λ k h. refl;
                gone = λ h k. absurd cc;
                goes_on = λ h k. (refl, refl, ground arith, enqueue-has i t.watcher_queue);
                foreign = λ h. (refl, refl);
                beyond = λ h. absurd (ground arith);
              })
        | inr idle ↦ elim (Bool-cases (holds i (t.watchers fd))) [
          | inl mine ↦
              let full = holds-full i (t.watchers fd) mine in
              let t1 = record t { watchers = put t.watchers fd null; nfds = t.nfds - 1 } in
              let v1 : IsTable t1 = clear-IsTable fd t v (ground arith) full in
              let g = idle-IsTable i w t1 v1 (λ k h. elim (Bool-cases (k == fd)) [
                | inl e ↦ rw e refl
                | inr e ↦ rw e (elsewhere i fd k t v own h e)
              ]) in
              rw (low, idle, mine)
                (record {
                  valid = record { counted = g.counted; owner = g.owner; empty = g.empty };
                  waits = λ h. ground arith;
                  others = λ k h. (let ne : (k == fd) ≡ false = ground arith in rw ne refl);
                  gone = λ h k. (ground arith, ground arith, unlink-out i t.watcher_queue);
                  goes_on = λ h k. absurd cc;
                  foreign = λ h. absurd cc;
                  beyond = λ h. absurd (ground arith);
                })
          | inr not_mine ↦
              let g = idle-IsTable i w t v (λ k h. elim (Bool-cases (k == fd)) [
                | inl e ↦ ap (λ x. holds i (t.watchers x)) ((==_iff k fd).0 e) ∙ not_mine
                | inr e ↦ elsewhere i fd k t v own h e
              ]) in
              rw (low, idle, not_mine)
                (record {
                  valid = record { counted = g.counted; owner = g.owner; empty = g.empty };
                  waits = λ h. ground arith;
                  others = λ k h. refl;
                  gone = λ h k. (not_mine, ground arith, unlink-out i t.watcher_queue);
                  goes_on = λ h k. absurd cc;
                  foreign = λ h. (refl, refl);
                  beyond = λ h. absurd (ground arith);
                })
        ]
      ]
    ]

-- `uv__io_stop`, called with some events, takes them away from those that a watcher waits for, unless
-- its descriptor is beyond the table, which is then as before. If some are left, the table and what
-- the kernel knows of are as before, and the watcher is in the queue of those to be told to it. If
-- none is left, the kernel is taken to know of none, the watcher is not in that queue, and its entry
-- is NULL or another watcher's. An entry that belongs to another watcher and all other entries are
-- kept, and the table is valid again.
pub uv__io_stop-Stopped :
    (i fd : ℕ) (events : Events) (t : Table)
    → IsTable t
    → (t.ios i).fd ≡ some fd
    → any events ≡ true
    → (g : Table) × (uv__io_stop i events t ≡ some g) × Stopped i fd events t g
unfolding uv__io_stop
uv__io_stop-Stopped i fd events t v own some_ = (
  stop_watcher i fd events t,
  (let ok : (takes_entry i fd events t && (t.nfds == 0)) ≡ false =
        elim (Bool-cases (takes_entry i fd events t)) [
          | inr not_taken ↦ rw not_taken refl
          | inl yes_ ↦ let c = counted_entry i fd t v (ground arith) (ground arith) in ground arith
        ] in
      simp (uv__io_stop, some_, own, ok)),
  stop_watcher-Stopped i fd events t v own,
)
