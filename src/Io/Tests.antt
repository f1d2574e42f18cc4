-- ===== src/Io/Tests.antt =====
-- unix/core.c: a table with one watcher, and the theorems at it.
use sebbu_c_libuv.Base.{
  ℕ, Option, none, ◌≡◌, refl, true, false, some, [], ◌==◌, ==_iff, if◌then◌else◌, ap, sym, ◌∙◌,
  arith, Bool-cases, inl, inr,
}
use sebbu_c_libuv.Io.{
  Events, no_events, all_events, Io, null, watcher, holds, any, Table, bit_or, next_power_of_two,
  maybe_resize, start_watcher, uv__io_start, uv__io_stop,
}
use sebbu_c_libuv.Io.Valid.{IsTable}
use sebbu_c_libuv.Io.Change.{Started, uv__io_start-Started, Stopped, uv__io_stop-Stopped}

abbrev readable : Events
readable = record no_events { pollin = true }

abbrev io_of : ℕ → Io
io_of i =
    if i == 1
    then record { fd = some 3; events = readable; pevents = readable }
    else record { fd = some 9; events = no_events; pevents = no_events }

-- Watcher 1 is in the table; watcher 2 has a descriptor beyond it.
abbrev table : Table
table = record {
  allocated = true;
  watchers = λ fd. if fd == 3 then watcher 1 else null;
  nwatchers = 6;
  nfds = 1;
  watcher_queue = [];
  pending_queue = [];
  ios = io_of;
}

table-IsTable : IsTable table
table-IsTable = record { counted = refl; owner = λ fd i h k. own fd i k; empty = λ h. absurd cc }
  where
    own :
        (fd i : ℕ)
        → holds i (table.watchers fd) ≡ true
        → ((io_of i).fd ≡ some fd) × (any (io_of i).pevents ≡ true)
    own fd i k = elim (Bool-cases (fd == 3)) [
      | inr ne ↦ (let c : false ≡ true = rw ne at (k) in absurd cc)
      | inl is ↦
          let c : holds i (watcher 1) ≡ true = rw is at (k) in
          let j : 1 ≡ i = (==_iff 1 i).0 c in
          let f : fd ≡ 3 = (==_iff fd 3).0 is in
          (
            ap (λ x. (io_of x).fd) (sym j) ∙ ap some (sym f),
            ap (λ x. any (io_of x).pevents) (sym j),
          )
    ]

abbrev table_size : Option Table → ℕ
table_size none = 0
table_size (some t) = t.nwatchers

-- The table grows to 14 entries, which with the two behind it make a power of two.
grown : table_size (uv__io_start (λ i. null) 2 readable table) ≡ 14
unfolding uv__io_start start_watcher maybe_resize next_power_of_two bit_or
grown = refl

uv__io_start-Started_example :
    (g : Table) × (uv__io_start (λ i. null) 2 readable table ≡ some g)
    × Started 2 9 readable table g
uv__io_start-Started_example =
    uv__io_start-Started (λ i. null) 2 9 readable table table-IsTable refl (omega arith) refl

uv__io_stop-Stopped_example :
    (g : Table) × (uv__io_stop 1 all_events table ≡ some g) × Stopped 1 3 all_events table g
uv__io_stop-Stopped_example = uv__io_stop-Stopped 1 3 all_events table table-IsTable refl refl
