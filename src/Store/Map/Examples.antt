-- ===== src/Store/Map/Examples.antt =====
-- A new map file in which the third identifier is set.
use loxim_stats.Base.{ℕ, ◌≡◌, refl, some, [], ◌∷◌, arith, ◌==◌, if◌then◌else◌}
use loxim_stats.Store.Map.{
  PhysicalId, rip, MapFile, empty_page, initialize_file, create_logical_id, found, get_physical_id,
  set_physical_id,
}
use loxim_stats.Store.Map.Create.{create_logical_id-get_physical_id}
use loxim_stats.Store.Map.Set.{after_set, set_physical_id-after_set}

abbrev new_file : MapFile
new_file = initialize_file empty_page

-- Page 5 of file 1, object 2.
abbrev home : PhysicalId
home = 5 ∷ 0 ∷ 0 ∷ 0 ∷ 1 ∷ 0 ∷ 2 ∷ 0 ∷ []

abbrev first : ℕ
first = 2046

abbrev second : ℕ
second = 2047

create_logical_id-get_physical_id_example :
    ((create_logical_id 9 new_file).1 ≡ 1)
    × ((j : ℕ)
        → get_physical_id (create_logical_id 9 new_file).0 j
          ≡ (if j == 1 then found rip else get_physical_id new_file j))
unfolding initialize_file
create_logical_id-get_physical_id_example =
    create_logical_id-get_physical_id 9 new_file (omega arith)

set_physical_id-after_set_example :
    (g : MapFile) × (set_physical_id 2 4 9 new_file 3 (some home) ≡ some (g, 0))
    × ((j : ℕ) → get_physical_id g j ≡ after_set new_file 3 home j)
unfolding initialize_file
set_physical_id-after_set_example =
    set_physical_id-after_set 0 4 9 new_file 3 home (omega arith) (omega arith) refl (omega arith)
