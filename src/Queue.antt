-- ===== src/Queue.antt =====
-- queue.h: intrusive circular lists, on a memory of `next` and `prev` pointers.
pub mod Ring
mod Tests
pub mod Splice
pub mod Remove
pub mod Insert
use sebbu_c_libuv.Base.{ℕ, Bool, ◌==◌, if◌then◌else◌}

-- The address of a `struct uv__queue`.
abbrev pub Ptr : Type 0
Ptr = ℕ

-- The two fields of every `struct uv__queue`.
pub record Memory : Type 0 where
  pub next : Ptr → Ptr
  pub prev : Ptr → Ptr

abbrev pub update : (Ptr → Ptr) → Ptr → Ptr → Ptr → Ptr
update f p v a = if a == p then v else f a

-- `p->next = v` and `p->prev = v`
abbrev pub set_next : Ptr → Ptr → Memory → Memory
set_next p v m = record m { next = update m.next p v }

abbrev pub set_prev : Ptr → Ptr → Memory → Memory
set_prev p v m = record m { prev = update m.prev p v }

-- uv__queue_init
unfoldable pub init : Ptr → Memory → Memory
init q m = set_prev q q (set_next q q m)

-- uv__queue_empty
unfoldable pub is_empty : Ptr → Memory → Bool
is_empty q m = q == m.next q

-- uv__queue_head
unfoldable pub head : Ptr → Memory → Ptr
head q m = m.next q

-- uv__queue_add
unfoldable pub add : Ptr → Ptr → Memory → Memory
add h n m =
    let m1 = set_next (m.prev h) (m.next n) m in
    let m2 = set_prev (m1.next n) (m1.prev h) m1 in
    let m3 = set_prev h (m2.prev n) m2 in set_next (m3.prev h) h m3

-- uv__queue_split
unfoldable pub split : Ptr → Ptr → Ptr → Memory → Memory
split h q n m =
    let m1 = set_prev n (m.prev h) m in
    let m2 = set_next (m1.prev n) n m1 in
    let m3 = set_next n q m2 in
    let m4 = set_prev h (m3.prev q) m3 in let m5 = set_next (m4.prev h) h m4 in set_prev q n m5

-- uv__queue_move
unfoldable pub move : Ptr → Ptr → Memory → Memory
unfolding is_empty
move h n m = if is_empty h m then init n m else split h (m.next h) n m

-- uv__queue_insert_head
unfoldable pub insert_head : Ptr → Ptr → Memory → Memory
insert_head h q m =
    let m1 = set_next q (m.next h) m in
    let m2 = set_prev q h m1 in let m3 = set_prev (m2.next q) q m2 in set_next h q m3

-- uv__queue_insert_tail
unfoldable pub insert_tail : Ptr → Ptr → Memory → Memory
insert_tail h q m =
    let m1 = set_next q h m in
    let m2 = set_prev q (m1.prev h) m1 in let m3 = set_next (m2.prev q) q m2 in set_prev h q m3

-- uv__queue_remove
unfoldable pub remove : Ptr → Memory → Memory
remove q m = let m1 = set_next (m.prev q) (m.next q) m in set_prev (m1.next q) (m1.prev q) m1
