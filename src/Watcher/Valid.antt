-- ===== src/Watcher/Valid.antt =====
-- unix/loop-watcher.c: the handles between any two calls, and what the calls keep.
use sebbu_c_libuv.Base.{
  ℕ, ◌≡◌, Bool, true, false, ◌||◌, Option, none, some, List, [], ◌∷◌, ◌==◌, if◌then◌else◌, arith,
  Bool-cases, inl, inr,
}
use sebbu_c_libuv.Base.Sublist.{IsSublist, nil, skip, keep, IsSublist-refl, IsSublist-trans}
use sebbu_c_libuv.Handle.{handle_start, handle_stop}
use sebbu_c_libuv.Queue.Ring.{has, ◌∈◌, ◌∉◌, IsDistinct}
use sebbu_c_libuv.Timer.{unlink}
use sebbu_c_libuv.Timer.Invariant.{has-unlink, unlink-IsDistinct}
use sebbu_c_libuv.Watcher.{
  Program, Watchers, switch_on, switch_off, start, stop, close, Call, call_start, call_stop,
  call_close, assign, run_call, run_calls,
}

-- Each queue links a handle once, no handle is in both, and just the active ones are in one.
pub record IsWatchers (s : Watchers) : Type 0 where
  pub handles : IsDistinct s.handles
  pub queue : IsDistinct s.queue
  pub apart : (i : ℕ) → i ∈ s.handles → i ∉ s.queue
  pub held : (i : ℕ) → (has i s.handles || has i s.queue) ≡ (s.program.flags i).active

-- Whether a call may stop the handle.
abbrev pub is_stop : ℕ → Call → Bool
is_stop i (call_start j cb) = false
is_stop i (call_stop j) = i == j
is_stop i (call_close j) = i == j
is_stop i (assign n) = false

abbrev pub stops : ℕ → List Call → Bool
stops i [] = false
stops i (c ∷ cs) = is_stop i c || stops i cs

pub switch_on-active :
    (i c j : ℕ) (p : Program)
    → ((switch_on i c p).flags j).active ≡ (if j == i then true else (p.flags j).active)
unfolding switch_on handle_start
switch_on-active i c j p = ground arith

pub switch_off-active :
    (i j : ℕ) (p : Program)
    → ((switch_off i p).flags j).active ≡ (if j == i then false else (p.flags j).active)
unfolding switch_off handle_stop
switch_off-active i j p = ground arith

unlink-IsSublist : (i : ℕ) (xs : List ℕ) → IsSublist (unlink i xs) xs
unfolding unlink
unlink-IsSublist i [] = nil
unlink-IsSublist i (x ∷ xs) = elim (Bool-cases (x == i)) [
  | inl e ↦ rw e (skip (IsSublist-refl xs))
  | inr e ↦ rw e (keep (unlink-IsSublist i xs))
]

-- What calls keep: the queue of the run loses just the handles that they stop.
pub record Kept (cs : List Call) (s g : Watchers) : Type 0 where
  pub valid : IsWatchers g
  pub shrinks : IsSublist g.queue s.queue
  pub stays : (i : ℕ) → stops i cs ≡ false → i ∈ s.queue → i ∈ g.queue

start-IsWatchers :
    (i : ℕ) (cb : Option ℕ) (s : Watchers) → IsWatchers s → IsWatchers ((start i cb s).1)
unfolding start
start-IsWatchers i none s v = elim (Bool-cases (s.program.flags i).active) [
  | inl on ↦ rw on v
  | inr off ↦ rw off v
]
start-IsWatchers i (some c) s v = elim (Bool-cases (s.program.flags i).active) [
  | inl on ↦ rw on v
  | inr off ↦ rw off (record {
    handles = (ground (arith, v.held i), v.handles);
    queue = v.queue;
    apart = λ j k. ground (arith, v.held i, v.apart j);
    held = λ j. ground (arith, v.held j, switch_on-active i c j s.program);
  })
]

stop-Kept : (i : ℕ) (s : Watchers) → IsWatchers s → Kept (call_stop i ∷ []) s (stop i s)
unfolding stop
stop-Kept i s v = elim (Bool-cases (s.program.flags i).active) [
  | inr off ↦ rw off (record { valid = v; shrinks = IsSublist-refl s.queue; stays = λ j k m. m })
  | inl on ↦ rw on (record {
    valid = record {
      handles = unlink-IsDistinct i s.handles v.handles;
      queue = unlink-IsDistinct i s.queue v.queue;
      apart = λ j k.
          ground
            (arith, has-unlink j i s.handles v.handles, has-unlink j i s.queue v.queue, v.apart j);
      held = λ j. ground (
        arith,
        has-unlink j i s.handles v.handles,
        has-unlink j i s.queue v.queue,
        v.held j,
        switch_off-active i j s.program,
      );
    };
    shrinks = unlink-IsSublist i s.queue;
    stays = λ j k m. ground (arith, has-unlink j i s.queue v.queue);
  })
]

start-queue : (i : ℕ) (cb : Option ℕ) (s : Watchers) → ((start i cb s).1).queue ≡ s.queue
unfolding start
start-queue i none s = ground arith
start-queue i (some c) s = ground arith

pub run_call-Kept : (c : Call) (s : Watchers) → IsWatchers s → Kept (c ∷ []) s (run_call c s)
unfolding run_call close
run_call-Kept (call_start i cb) s v = record {
  valid = start-IsWatchers i cb s v;
  shrinks = rw (start-queue i cb s) (IsSublist-refl s.queue);
  stays = λ j k m. rw (start-queue i cb s) m;
}
run_call-Kept (call_stop i) s v = stop-Kept i s v
run_call-Kept (call_close i) s v =
    let k = stop-Kept i s v in record { valid = k.valid; shrinks = k.shrinks; stays = k.stays }
run_call-Kept (assign n) s v = record {
  valid = record { handles = v.handles; queue = v.queue; apart = v.apart; held = v.held };
  shrinks = IsSublist-refl s.queue;
  stays = λ j k m. m;
}

pub run_calls-Kept : (cs : List Call) (s : Watchers) → IsWatchers s → Kept cs s (run_calls cs s)
unfolding run_calls
run_calls-Kept [] s v = record { valid = v; shrinks = IsSublist-refl s.queue; stays = λ j k m. m }
run_calls-Kept (c ∷ cs) s v =
    let one = run_call-Kept c s v in
    let more = run_calls-Kept cs (run_call c s) one.valid in
    record {
      valid = more.valid;
      shrinks = IsSublist-trans one.shrinks more.shrinks;
      stays = λ j k m. more.stays j (ground arith) (one.stays j (ground arith) m);
    }
