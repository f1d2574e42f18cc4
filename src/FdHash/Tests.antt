-- ===== src/FdHash/Tests.antt =====
-- win/fs-fd-hash-inl.h: a run over one bucket that grows to a second group and shrinks again.
use sebbu_c_libuv.Base.{
  ℕ, zero, suc, ◌+◌, ◌*◌, ◌≡◌, refl, false, none, some, List, [], ◌∷◌, ◌++◌, drop,
}
use sebbu_c_libuv.FdHash.{
  Info, Group, find_in_group, find_in_groups, find_in_bucket, entry_at, write_at, add_entry,
  remove_entry, uv__fd_hash_init, uv__fd_hash_get, uv__fd_hash_add, uv__fd_hash_remove,
}
use sebbu_c_libuv.FdHash.Spec.{Op, get, add, remove, spec, table, answers}
use sebbu_c_libuv.FdHash.Refine.{answers-table}

abbrev info : ℕ → Info
info n = record { flags = n; is_directory = false; mapping = 0; size = 0; current_pos = 0 }

abbrev zeros : ℕ → Group
zeros i j = record { fd = 0; info = info 0 }

-- Descriptors of bucket 3.
abbrev add_many : ℕ → List Op
add_many zero = []
add_many (suc n) = add (256 * n + 3) (info n) ∷ add_many n

abbrev script : List Op
script = add_many 17 ++ get 4099 ∷ remove 4099 ∷ get 4099 ∷ get 3 ∷ []

-- Seventeen entries make a second group. The last one, which stands alone in it, takes the place of
-- the one that is removed, and both are answered rightly.
seventeen :
    drop 17 (answers (table zeros) script (uv__fd_hash_init zeros))
    ≡ some (info 16) ∷ some (info 16) ∷ none ∷ some (info 0) ∷ []
unfolding uv__fd_hash_init uv__fd_hash_get uv__fd_hash_add uv__fd_hash_remove find_in_bucket
    find_in_groups find_in_group entry_at write_at add_entry remove_entry
seventeen = refl

answers-table_example :
    answers (table zeros) script (uv__fd_hash_init zeros) ≡ answers spec script (λ fd. none)
answers-table_example = answers-table zeros zeros script
