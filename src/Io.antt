-- ===== src/Io.antt =====
-- unix/core.c: the watchers of file descriptors and the loop's table of them.
pub mod Power
pub mod Valid
pub mod Entry
pub mod Change
mod Tests
use sebbu_c_libuv.Base.{
  ℕ, zero, suc, ◌+◌, ◌-◌, ◌*◌, ◌/◌, ◌%◌, ◌^◌, Bool, true, false, not, ◌&&◌, ◌||◌, Option, none,
  some, List, [], ◌∷◌, ◌++◌, ltb, leb, ◌==◌, if◌then◌else◌,
}
use sebbu_c_libuv.Queue.Ring.{has}
use sebbu_c_libuv.Timer.{unlink}

-- The bits POLLIN, POLLOUT, UV__POLLRDHUP and UV__POLLPRI.
pub record Events : Type 0 where
  pub pollin : Bool
  pub pollout : Bool
  pub pollrdhup : Bool
  pub pollpri : Bool

abbrev pub no_events : Events
no_events = record { pollin = false; pollout = false; pollrdhup = false; pollpri = false }

abbrev pub any : Events → Bool
any e = e.pollin || e.pollout || e.pollrdhup || e.pollpri

abbrev pub both : Events → Events → Events
both e f = record {
  pollin = e.pollin || f.pollin;
  pollout = e.pollout || f.pollout;
  pollrdhup = e.pollrdhup || f.pollrdhup;
  pollpri = e.pollpri || f.pollpri;
}

abbrev pub common : Events → Events → Events
common e f = record {
  pollin = e.pollin && f.pollin;
  pollout = e.pollout && f.pollout;
  pollrdhup = e.pollrdhup && f.pollrdhup;
  pollpri = e.pollpri && f.pollpri;
}

abbrev pub without : Events → Events → Events
without e f = record {
  pollin = e.pollin && not f.pollin;
  pollout = e.pollout && not f.pollout;
  pollrdhup = e.pollrdhup && not f.pollrdhup;
  pollpri = e.pollpri && not f.pollpri;
}

abbrev pub same_bit : Bool → Bool → Bool
same_bit true b = b
same_bit false b = not b

abbrev pub same_events : Events → Events → Bool
same_events e f =
    same_bit e.pollin f.pollin
    && same_bit e.pollout f.pollout
    && same_bit e.pollrdhup f.pollrdhup
    && same_bit e.pollpri f.pollpri

-- `uv__io_t`; no descriptor is -1.
pub record Io : Type 0 where
  pub fd : Option ℕ
  pub events : Events
  pub pevents : Events

-- An entry of the table: NULL, a watcher by its number, or what a backend keeps behind the table.
pub data Slot : Type 0 where
  null : Slot
  watcher : ℕ → Slot
  fake : ℕ → Slot

pub record Table : Type 0 where
  pub allocated : Bool
  pub watchers : ℕ → Slot
  pub nwatchers : ℕ
  pub nfds : ℕ
  pub watcher_queue : List ℕ
  pub pending_queue : List ℕ
  pub ios : ℕ → Io

abbrev pub put {ℓ} : {A : Type ℓ} → (ℕ → A) → ℕ → A → ℕ → A
put f i a j = if j == i then a else f j

-- The bitwise or of `w` bits.
unfoldable pub bit_or : ℕ → ℕ → ℕ → ℕ
bit_or zero a b = 0
bit_or (suc w) a b = (if (a % 2 == 1) || (b % 2 == 1) then 1 else 0) + 2 * bit_or w (a / 2) (b / 2)

abbrev pub or_shifted : ℕ → ℕ → ℕ
or_shifted n val = bit_or 32 val (val / n)

unfoldable pub next_power_of_two : ℕ → ℕ
next_power_of_two val =
    let v = (val + 2 ^ 32 - 1) % 2 ^ 32 in
    (or_shifted 65536 (or_shifted 256 (or_shifted 16 (or_shifted 4 (or_shifted 2 v)))) + 1) % 2 ^ 32

-- `garbage` is what the memory holds that uv__reallocf adds; lack of memory ends the program.
unfoldable pub maybe_resize : (garbage : ℕ → Slot) → ℕ → Table → Table
maybe_resize garbage len t =
    let list = if t.allocated then t.watchers t.nwatchers else null in
    let count = if t.allocated then t.watchers (t.nwatchers + 1) else null in
    let n = (next_power_of_two ((len + 2) % 2 ^ 32) + 2 ^ 32 - 2) % 2 ^ 32 in
    let grown : ℕ → Slot =
      λ i. if t.allocated && ltb i (t.nwatchers + 2) then t.watchers i else garbage i in
    let cleared : ℕ → Slot = λ i. if leb t.nwatchers i && ltb i n then null else grown i in
    if leb len t.nwatchers then t else record t {
      allocated = true;
      watchers = put (put cleared n list) (n + 1) count;
      nwatchers = n;
    }

unfoldable pub uv__io_init : ℕ → Option ℕ → Table → Table
uv__io_init i fd t = record t {
  ios = put t.ios i (record { fd = fd; events = no_events; pevents = no_events });
}

abbrev pub is_null : Slot → Bool
is_null null = true
is_null (watcher i) = false
is_null (fake n) = false

abbrev pub holds : ℕ → Slot → Bool
holds i null = false
holds i (watcher j) = j == i
holds i (fake n) = false

abbrev pub enqueue : ℕ → List ℕ → List ℕ
enqueue i q = if has i q then q else q ++ i ∷ []

-- `uv__io_start` and `uv__io_stop` for a watcher with a descriptor.
unfoldable pub start_watcher : (ℕ → Slot) → ℕ → ℕ → Events → Table → Table
start_watcher garbage i fd events t =
    let w = record (t.ios i) { pevents = both (t.ios i).pevents events } in
    let t1 = maybe_resize garbage (fd + 1) (record t { ios = put t.ios i w }) in
    let t2 = record t1 { watcher_queue = enqueue i t1.watcher_queue } in
    if same_events w.events w.pevents
    then t1
    else if is_null (t2.watchers fd)
    then record t2 { watchers = put t2.watchers fd (watcher i); nfds = t2.nfds + 1 }
    else t2

unfoldable pub stop_watcher : ℕ → ℕ → Events → Table → Table
stop_watcher i fd events t =
    let left = without (t.ios i).pevents events in
    let t1 = record t { ios = put t.ios i (record (t.ios i) { pevents = left }) } in
    let idle = record t {
      ios = put t.ios i (record (t.ios i) { pevents = left; events = no_events });
      watcher_queue = unlink i t.watcher_queue;
    } in
    if leb t.nwatchers fd
    then t
    else if any left
    then record t1 { watcher_queue = enqueue i t.watcher_queue }
    else if holds i (t.watchers fd)
    then record idle { watchers = put t.watchers fd null; nfds = t.nfds - 1 }
    else idle

-- `none` is a failed assertion: there are no events, or the watcher has no descriptor or the largest.
unfoldable pub uv__io_start : (ℕ → Slot) → ℕ → Events → Table → Option Table
uv__io_start garbage i events t = elim ((t.ios i).fd) [
  | none ↦ none
  | some fd ↦
      if any events && ltb fd 2147483647 then some (start_watcher garbage i fd events t) else none
]

-- Whether a stop takes the entry of the descriptor out of the table.
abbrev pub takes_entry : ℕ → ℕ → Events → Table → Bool
takes_entry i fd events t =
    ltb fd t.nwatchers && not (any (without (t.ios i).pevents events)) && holds i (t.watchers fd)

-- `none` is a failed assertion: there are no events, or an entry is to be taken out of a table that
-- counts none.
unfoldable pub uv__io_stop : ℕ → Events → Table → Option Table
uv__io_stop i events t = if not (any events) then none else elim ((t.ios i).fd) [
  | none ↦ some t
  | some fd ↦
      if takes_entry i fd events t && (t.nfds == 0) then none else some (stop_watcher i fd events t)
]

abbrev pub all_events : Events
all_events = record { pollin = true; pollout = true; pollrdhup = true; pollpri = true }

-- `invalidate` is uv__platform_invalidate_fd, which a backend supplies.
unfoldable pub uv__io_close : (invalidate : ℕ → Table → Table) → ℕ → Table → Option Table
uv__io_close invalidate i t = elim (uv__io_stop i all_events t) [
  | none ↦ none
  | some t1 ↦
      let t2 = record t1 { pending_queue = unlink i t1.pending_queue } in
      elim ((t2.ios i).fd) [ none ↦ some t2 | some fd ↦ some (invalidate fd t2) ]
]

unfoldable pub uv__io_feed : ℕ → Table → Table
uv__io_feed i t = record t { pending_queue = enqueue i t.pending_queue }

-- `none` is a failed assertion, that there are events.
unfoldable pub uv__io_active : Io → Events → Option Bool
uv__io_active w events = if any events then some (any (common w.pevents events)) else none

unfoldable pub uv__fd_exists : Table → ℕ → Bool
uv__fd_exists t fd = ltb fd t.nwatchers && not (is_null (t.watchers fd))
