-- ===== src/Tests/ListRuns.antt =====
-- The List of src/list.cpp on two items.
use cxx_kernel.Base.{◌≡◌, refl, [], ◌∷◌, Ensures, arith}
use cxx_kernel.LinkedList.{LinkedList, new_list, append, delete_at, delete_all}
use cxx_kernel.LinkedList.Holds.{Represents, new_list-Represents}
use cxx_kernel.LinkedList.Insert.{append-Represents, insert_behind}
use cxx_kernel.LinkedList.DeleteAt.{delete_at-Represents, deleted_at, deletes_at}
use cxx_kernel.LinkedList.Sweep.{delete_all-Represents, sweep}

abbrev two : LinkedList
two = append 8 (append 7 (new_list 16))

two-Represents : Represents two (7 ∷ 8 ∷ [])
two-Represents =
    append-Represents 8 _ (7 ∷ []) (append-Represents 7 _ [] (new_list-Represents 16 (omega arith)))

append-Represents_example : Represents (append 9 two) (7 ∷ 8 ∷ 9 ∷ [])
append-Represents_example = append-Represents 9 two (7 ∷ 8 ∷ []) two-Represents

insert_behind_run : insert_behind 0 9 (7 ∷ 8 ∷ []) ≡ 7 ∷ 9 ∷ 8 ∷ []
unfolding insert_behind
insert_behind_run = refl

delete_at-Represents_example :
    ((delete_at 1 two).0 ≡ deletes_at 1 (7 ∷ 8 ∷ []))
    × Represents (delete_at 1 two).1 (deleted_at 1 (7 ∷ 8 ∷ []))
delete_at-Represents_example = delete_at-Represents 1 two (7 ∷ 8 ∷ []) two-Represents

delete_all-Represents_example :
    Ensures (delete_all 4 8 two) (λ t. Represents t (7 ∷ sweep 8 (8 ∷ [])))
delete_all-Represents_example =
    delete_all-Represents 4 8 7 two (8 ∷ []) (omega arith) (λ e. omega arith) two-Represents
