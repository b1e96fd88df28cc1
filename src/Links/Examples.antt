-- ===== src/Links/Examples.antt =====
-- The list operations at concrete nodes: the head 10, and the nodes 20, 30 and 40.
use chestnut.Base.{refl, [], ◌∷◌}
use chestnut.Links.{Links, delete, insert_before, insert_after, init_head}
use chestnut.Links.Ring.{IsRing}
use chestnut.Links.Insert.{insert_after-IsRing, insert_before-IsRing, init_head-IsRing}
use chestnut.Links.Delete.{delete-IsRing}

abbrev memory : Links
memory = record { prev = λ _. 0; next = λ _. 0 }

-- The head alone, and then with three nodes.
abbrev empty : Links
empty = init_head 10 memory

abbrev three : Links
three = insert_after 20 10 (insert_before 40 10 (insert_before 30 10 empty))

two-IsRing : IsRing (insert_before 40 10 (insert_before 30 10 empty)) 10 (30 ∷ 40 ∷ [])
two-IsRing =
    insert_before-IsRing (insert_before 30 10 empty) 10 40 (30 ∷ [])
      (insert_before-IsRing empty 10 30 [] (init_head-IsRing memory 10) refl) refl

three-IsRing : IsRing three 10 (20 ∷ 30 ∷ 40 ∷ [])
three-IsRing =
    insert_after-IsRing (insert_before 40 10 (insert_before 30 10 empty)) 10 20 (30 ∷ 40 ∷ [])
      two-IsRing refl

-- The middle node is taken out.
delete-IsRing_example : IsRing (delete 30 three) 10 (20 ∷ 40 ∷ [])
delete-IsRing_example = delete-IsRing three 30 10 (20 ∷ []) (40 ∷ []) three-IsRing
