-- ===== src/Queue/Tests.antt =====
-- queue.h: the theorems at concrete queues.
use sebbu_c_libuv.Base.{refl, [], ◌∷◌}
use sebbu_c_libuv.Queue.{Memory, init, split, move, insert_tail, remove}
use sebbu_c_libuv.Queue.Ring.{IsQueue, SameOutside}
use sebbu_c_libuv.Queue.Insert.{insert_tail-IsQueue, init-IsQueue}
use sebbu_c_libuv.Queue.Remove.{remove-IsQueue}
use sebbu_c_libuv.Queue.Splice.{split-IsQueue, move-IsQueue}

abbrev blank : Memory
blank = record { next = λ a. 0; prev = λ a. 0 }

-- Heads 10 and 20, and the nodes 1 to 3 and 4 in their queues.
abbrev memory : Memory
unfolding init insert_tail
memory =
    insert_tail 20 4
      (init 20 (insert_tail 10 3 (insert_tail 10 2 (insert_tail 10 1 (init 10 blank)))))

three-IsQueue : IsQueue memory 10 (1 ∷ 2 ∷ 3 ∷ [])
unfolding memory
three-IsQueue = record {
  chain = (refl, refl, (refl, refl, (refl, refl, (refl, refl))));
  distinct = (refl, (refl, (refl, (refl, tt))));
}

one-IsQueue : IsQueue memory 20 (4 ∷ [])
unfolding memory
one-IsQueue = record { chain = (refl, refl, (refl, refl)); distinct = (refl, (refl, tt)) }

init-IsQueue_example : IsQueue (init 5 memory) 5 [] × SameOutside (5 ∷ []) memory (init 5 memory)
init-IsQueue_example = init-IsQueue 5 memory

insert_tail-IsQueue_example :
    IsQueue (insert_tail 10 5 memory) 10 (1 ∷ 2 ∷ 3 ∷ 5 ∷ [])
    × SameOutside (10 ∷ 1 ∷ 2 ∷ 3 ∷ 5 ∷ []) memory (insert_tail 10 5 memory)
insert_tail-IsQueue_example = insert_tail-IsQueue memory 10 5 (1 ∷ 2 ∷ 3 ∷ []) three-IsQueue refl

remove-IsQueue_example :
    IsQueue (remove 2 memory) 10 (1 ∷ 3 ∷ [])
    × SameOutside (10 ∷ 1 ∷ 2 ∷ 3 ∷ []) memory (remove 2 memory)
remove-IsQueue_example = remove-IsQueue memory 10 2 (1 ∷ []) (3 ∷ []) three-IsQueue

split-IsQueue_example :
    IsQueue (split 10 2 7 memory) 10 (1 ∷ []) × IsQueue (split 10 2 7 memory) 7 (2 ∷ 3 ∷ [])
split-IsQueue_example = split-IsQueue memory 10 7 (1 ∷ []) 2 (3 ∷ []) three-IsQueue refl

move-IsQueue_example :
    IsQueue (move 10 7 memory) 7 (1 ∷ 2 ∷ 3 ∷ []) × IsQueue (move 10 7 memory) 10 []
move-IsQueue_example = move-IsQueue memory 10 7 (1 ∷ 2 ∷ 3 ∷ []) three-IsQueue refl
