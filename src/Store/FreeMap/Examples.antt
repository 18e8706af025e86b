-- ===== src/Store/FreeMap/Examples.antt =====
-- A new file of data pages.
use loxim_stats.Base.{◌+◌, ◌*◌, ◌%◌, ◌<◌, refl, [], ◌∷◌, arith, inr, ◌-◌, ne→==}
use loxim_stats.Store.Page.{
  PageData, initialize_page, is_free_map_page, max_object_count, object_count,
}
use loxim_stats.Store.Page.Contents.{IsPage}
use loxim_stats.Store.FreeMap.{PageFile, group_size, store_object, erase_object, write_page}
use loxim_stats.Store.FreeMap.Search.{IsFreeMap}
use loxim_stats.Store.FreeMap.Update.{Entered, after-IsFreeMap}
use loxim_stats.Store.FreeMap.Objects.{Stores, store_object-Stores, Erases, erase_object-Erases}

abbrev new_file : PageFile
new_file = initialize_page

new_file-IsFreeMap : IsFreeMap new_file
unfolding initialize_page is_free_map_page
new_file-IsFreeMap = record {
  bounded = λ h hz. omega arith;
  right = λ h i hz lt. (
    λ known. absurd (omega arith),
    λ _. rw (ne→== ((h + i + 1) % group_size) 0 (omega arith)) refl,
  );
  page = λ n inner.
      rw (ne→== (n % group_size) 0 inner) (record { ordered = tt; accounted = omega arith });
  named = λ n inner. refl;
}

room : object_count (new_file (0 * group_size)) < max_object_count
unfolding initialize_page
room = omega arith

store_object-Stores_example : Stores new_file (7 ∷ 8 ∷ []) (store_object 1 new_file (7 ∷ 8 ∷ []) 3)
store_object-Stores_example =
    store_object-Stores new_file (7 ∷ 8 ∷ []) 3 1 0 new_file-IsFreeMap (omega arith) (omega arith)
      room

-- Page 1 with two objects, and its entry in the header.
abbrev used_page : PageData
used_page = record (initialize_page 1) {
  free_space = 16351;
  object_offset = 16381 ∷ 16379 ∷ [];
  bytes = λ a. a - 16370;
}

abbrev used_header : PageData
used_header = record (initialize_page 0) { object_offset = 16351 ∷ []; free_space = 4090 }

used_page-IsPage : IsPage used_page
unfolding initialize_page
used_page-IsPage = omega arith

used_header-Entered : Entered (new_file 0) 0 16351 used_header
unfolding initialize_page
used_header-Entered = record {
  longer = omega arith;
  known = omega arith;
  shortest = inr refl;
  entry = refl;
  others = λ i lt ne. absurd (omega arith);
}

abbrev used_file : PageFile
used_file = write_page (write_page new_file 1 used_page) 0 used_header

used_file-IsFreeMap : IsFreeMap used_file
unfolding initialize_page
used_file-IsFreeMap =
    after-IsFreeMap new_file new_file-IsFreeMap 1 used_page used_page-IsPage refl (omega arith)
      used_header used_header-Entered

erase_object-Erases_example : Erases used_file 1 0 (erase_object used_file 1 0 9)
erase_object-Erases_example =
    erase_object-Erases used_file 1 0 9 used_file-IsFreeMap (omega arith) (omega arith)
      (omega arith)
