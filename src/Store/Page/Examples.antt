-- ===== src/Store/Page/Examples.antt =====
-- Small pages: a fresh one, and one with two objects of which the first was deleted.
use loxim_stats.Base.{◌-◌, ◌≡◌, [], ◌∷◌, arith, some}
use loxim_stats.Store.Page.Contents.{IsPage}
use loxim_stats.Store.Page.Insert.{Implements, insert_object-Implements}
use loxim_stats.Store.Page.Delete.{Deletes, delete_object-Deletes}
use loxim_stats.Store.Page.{PageData, initialize_page, insert_object, delete_object}

abbrev fresh : PageData
fresh = initialize_page 1

fresh-IsPage : IsPage fresh
unfolding initialize_page
fresh-IsPage = omega arith

-- Objects of three and two bytes; the table has the entries 16381 and 16379.
abbrev two_objects : PageData
two_objects = record fresh {
  free_space = 16351;
  object_offset = 16381 ∷ 16379 ∷ [];
  bytes = λ a. a - 16370;
}

two_objects-IsPage : IsPage two_objects
unfolding initialize_page
two_objects-IsPage = omega arith

abbrev one_hole : PageData
one_hole = record fresh {
  free_space = 16354;
  object_offset = 16384 ∷ 16382 ∷ [];
  bytes = λ a. a - 16370;
}

one_hole-IsPage : IsPage one_hole
unfolding initialize_page
one_hole-IsPage = omega arith

-- The new object fills the hole, and the other one moves down.
insert_object-Implements_example :
    Implements one_hole (7 ∷ 8 ∷ 9 ∷ []) 5 (insert_object one_hole (7 ∷ 8 ∷ 9 ∷ []) 5)
insert_object-Implements_example =
    insert_object-Implements one_hole (7 ∷ 8 ∷ 9 ∷ []) 5 one_hole-IsPage

delete_object-Deletes_example :
    (p' : PageData) × (delete_object two_objects 0 5 ≡ some p') × Deletes two_objects 0 p'
delete_object-Deletes_example =
    delete_object-Deletes two_objects 0 5 two_objects-IsPage (omega arith)
