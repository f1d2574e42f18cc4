-- ===== src/FdHash.antt =====
-- win/fs-fd-hash-inl.h: the table from file descriptors to their information.
--
-- Each of 256 buckets has a linked list of groups of 16 entries; all groups but the first are full.
-- A group is a function of the slot, and a pointer to an entry is the number of groups behind its
-- group with its slot, which no insertion or removal at the front changes.
pub mod Spec
pub mod Find
pub mod Laws
pub mod Change
pub mod Remove
pub mod Refine
mod Tests
use sebbu_c_libuv.Base.{
  ℕ, zero, suc, ◌+◌, ◌-◌, ◌%◌, Bool, true, false, Option, none, some, List, [], ◌∷◌, length, ◌==◌,
  if◌then◌else◌, ltb, not, ◌&&◌, ◌||◌,
}

abbrev pub hash_size : ℕ
hash_size = 256

abbrev pub group_size : ℕ
group_size = 16

pub record Info : Type 0 where
  pub flags : ℕ
  pub is_directory : Bool
  pub mapping : ℕ
  pub size : ℕ
  pub current_pos : ℕ

pub record Entry : Type 0 where
  pub fd : ℕ
  pub info : Info

abbrev pub Group : Type 0
Group = ℕ → Entry

-- `data`, as the list of the groups that `next` leads through.
pub record Bucket : Type 0 where
  pub size : ℕ
  pub data_ : List Group

abbrev pub FdHash : Type 0
FdHash = ℕ → Bucket

pub record Pointer : Type 0 where
  pub behind : ℕ
  pub slot : ℕ

abbrev pub put {ℓ} : {A : Type ℓ} → (ℕ → A) → ℕ → A → ℕ → A
put f i a j = if j == i then a else f j

-- `FIND_IN_GROUP_PTR`: the first of `n` slots, from `i` on, with the descriptor.
unfoldable pub find_in_group : ℕ → Group → ℕ → ℕ → Option ℕ
find_in_group fd g zero i = none
find_in_group fd g (suc n) i =
    let rest = find_in_group fd g n (i + 1) in if (g i).fd == fd then some i else rest

-- The loop of `FIND_IN_BUCKET_PTR` over the groups.
unfoldable pub find_in_groups : ℕ → List Group → Option Pointer
find_in_groups fd [] = none
find_in_groups fd (g ∷ gs) = elim (find_in_group fd g group_size 0) [
  | none ↦ find_in_groups fd gs
  | some i ↦ some (record { behind = length gs; slot = i })
]

abbrev pub first_group_size : ℕ → ℕ
first_group_size size =
    if not (size == 0) && (size % group_size == 0) then group_size else size % group_size

-- `FIND_IN_BUCKET_PTR`; a bucket without a group is never reached.
unfoldable pub find_in_bucket : ℕ → Bucket → Option Pointer
find_in_bucket fd b = elim (b.data_) [
  | [] ↦ none
  | g ∷ gs ↦ elim (find_in_group fd g (first_group_size b.size) 0) [
    | none ↦ find_in_groups fd gs
    | some i ↦ some (record { behind = length gs; slot = i })
  ]
]

-- Reading and writing an entry through a pointer.
unfoldable pub entry_at : List Group → Pointer → Option Entry
entry_at [] p = none
entry_at (g ∷ gs) p = if p.behind == length gs then some (g p.slot) else entry_at gs p

unfoldable pub write_at : List Group → Pointer → Entry → List Group
write_at [] p e = []
write_at (g ∷ gs) p e = if p.behind == length gs then put g p.slot e ∷ gs else g ∷ write_at gs p e

abbrev pub bucket_of : FdHash → ℕ → Bucket
bucket_of h fd = h (fd % hash_size)

-- The initial groups, which are statically allocated, are `initial`.
unfoldable pub uv__fd_hash_init : (initial : ℕ → Group) → FdHash
uv__fd_hash_init initial i = record { size = 0; data_ = initial i ∷ [] }

-- The result and what `*info` is set to are one.
unfoldable pub uv__fd_hash_get : ℕ → FdHash → Option Info
uv__fd_hash_get fd h = elim (find_in_bucket fd (bucket_of h fd)) [
  | none ↦ none
  | some p ↦ elim (entry_at (bucket_of h fd).data_ p) [ none ↦ none | some e ↦ some e.info ]
]

-- The bucket with a new entry; `fresh` is the memory of a new group.
unfoldable pub add_entry : Group → Entry → Bucket → Bucket
add_entry fresh e b =
    let i = b.size % group_size in
    let groups = if not (b.size == 0) && (i == 0) then fresh ∷ b.data_ else b.data_ in
    record {
      size = b.size + 1;
      data_ = write_at groups (record { behind = length groups - 1; slot = i }) e;
    }

unfoldable pub uv__fd_hash_add : Group → ℕ → Info → FdHash → FdHash
uv__fd_hash_add fresh fd info h =
    let b = bucket_of h fd in
    let e : Entry = record { fd = fd; info = info } in
    put h (fd % hash_size) (elim (find_in_bucket fd b) [
      | none ↦ add_entry fresh e b
      | some p ↦ record b { data_ = write_at b.data_ p e }
    ])

abbrev pub rest_of : List Group → List Group
rest_of [] = []
rest_of (g ∷ gs) = gs

-- The bucket without the entry at a pointer: the last entry takes its place.
unfoldable pub remove_entry : Pointer → Bucket → Bucket
remove_entry p b =
    let n = b.size - 1 in
    let last : Pointer = record { behind = length b.data_ - 1; slot = n % group_size } in
    let filled : List Group = elim (entry_at b.data_ last) [
      | none ↦ b.data_
      | some e ↦ write_at b.data_ p e
    ] in
    let groups = if (p.behind == last.behind) && (p.slot == last.slot) then b.data_ else filled in
    record {
      size = n;
      data_ = if not (n == 0) && (n % group_size == 0) then rest_of groups else groups;
    }

unfoldable pub uv__fd_hash_remove : ℕ → FdHash → Option Info × FdHash
uv__fd_hash_remove fd h =
    let b = bucket_of h fd in
    elim (find_in_bucket fd b) [
      | none ↦ (none, h)
      | some p ↦
          let info : Option Info = elim (entry_at b.data_ p) [
            | none ↦ none
            | some e ↦ some e.info
          ] in
          (info, put h (fd % hash_size) (remove_entry p b))
    ]
