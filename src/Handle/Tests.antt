-- ===== src/Handle/Tests.antt =====
-- uv-common.h: the count at concrete handles.
use sebbu_c_libuv.Base.{◌≡◌, refl, true, false, List, [], ◌∷◌, arith}
use sebbu_c_libuv.Handle.{Flags, handle_init}
use sebbu_c_libuv.Handle.Count.{total, Op, IsQuiet, run_at, run_at-counts}

abbrev running : Flags
running = record { active = true; ref = true; closing = false; closed = false }

abbrev two : List Flags
two = handle_init ∷ running ∷ []

run_at-counts_example :
    ((run_at Op.close 1 two 1).1 ≡ total (run_at Op.close 1 two 1).0)
    × IsQuiet (run_at Op.close 1 two 1).0
run_at-counts_example = run_at-counts Op.close 1 two 1 refl (omega arith) tt (refl, (refl, tt))

-- Closing the only active handle leaves nothing that keeps the loop alive.
close_last : (run_at Op.close 1 two 1).1 ≡ 0
unfolding run_at
close_last = refl
