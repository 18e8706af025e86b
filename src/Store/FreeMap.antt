-- ===== src/Store/FreeMap.antt =====
-- PageManager::getFreePage, PageManager::updateFreeMap and the page parts of
-- DBStoreManager::createObject and deleteObject. The file of data pages is a function from page numbers: the buffer
-- hands out a page for every number, an initialised one where the file ends. Every 4092nd page is
-- the header of the 4091 behind it, and its table holds their free space.
pub mod Search
pub mod Update
pub mod Objects
mod Examples
use loxim_stats.Base.{
  ℕ, zero, suc, ◌+◌, ◌-◌, ◌%◌, Option, none, some, List, [], ◌∷◌, ltb, leb, ◌==◌, if◌then◌else◌,
  length, set, ◌++◌,
}
use loxim_stats.Store.Page.{
  PageData, InsertError, InsertResult, inserted, failed, sizeof_int, max_object_count, object_count,
  insert_object, delete_object,
}

abbrev pub PageFile : Type 0
PageFile = ℕ → PageData

abbrev pub write_page : PageFile → ℕ → PageData → PageFile
write_page f n p = λ m. if m == n then p else f m

-- The number of pages from one header page to the next.
abbrev pub group_size : ℕ
group_size = max_object_count + 1

-- The first entry from index `i` on of a page with `needed` bytes.
pub find_entry : ℕ → ℕ → List ℕ → Option ℕ
find_entry needed i [] = none
find_entry needed i (space ∷ rest) =
    let later = find_entry needed (suc i) rest in if leb needed space then some i else later

-- The page that the header `h` at `pii` offers, if it offers one.
pub offer : PageData → ℕ → ℕ → Option ℕ
offer h pii objsize = elim (find_entry (objsize + sizeof_int) 0 h.object_offset) [
  | some i ↦ some (pii + i + 1)
  | none ↦ if ltb (object_count h) max_object_count then some (pii + object_count h + 1) else none
]

-- The loop over the header pages; `none`: the fuel ran out. The source's loop has no other end than
-- an overflow of `pii`, an int.
pub get_free_page : ℕ → PageFile → ℕ → ℕ → Option ℕ
get_free_page zero f objsize pii = none
get_free_page (suc fuel) f objsize pii = elim (offer (f pii) pii objsize) [
  | some n ↦ some n
  | none ↦ get_free_page fuel f objsize (pii + group_size)
]

-- An entry of the table of a header page; one behind the last is appended.
pub set_entry : PageData → ℕ → ℕ → Option PageData
set_entry h offset space =
    if ltb (object_count h) offset
    then none
    else if object_count h == offset
    then some
        (record h { object_offset = h.object_offset ++ space ∷ []; free_space = h.free_space - 1 })
    else some (record h { object_offset = set h.object_offset offset space })

-- `none` is the return code -1.
pub update_free_map : PageFile → PageData → Option PageFile
update_free_map f p =
    let page_id = p.header.page_id in
    let pii = page_id - page_id % group_size in
    elim (set_entry (f pii) (page_id % group_size - 1) p.free_space) [
      | none ↦ none
      | some h ↦ some (write_page f pii h)
    ]

-- What createObject does with the pages. The source goes on where the insertion or the update fails;
-- the model ends there with the reason.
pub data Stored : Type 0 where
  stored : PageFile → ℕ → ℕ → Stored
  no_page : Stored
  insert_failed : InsertError → Stored
  map_fault : Stored

pub finish_store : PageFile → ℕ → InsertResult → Stored
finish_store f page (failed e) = insert_failed e
finish_store f page (inserted p k) = elim (update_free_map (write_page f page p) p) [
  | none ↦ map_fault
  | some g ↦ stored g page k
]

pub store_object : ℕ → PageFile → List ℕ → ℕ → Stored
store_object fuel f obj log_id = elim (get_free_page fuel f (length obj) 0) [
  | none ↦ no_page
  | some page ↦ finish_store f page (insert_object (f page) obj log_id)
]

-- The page part of deleteObject, for the object at `k` of page `n`. `none`: the index is beyond the
-- table, or the update of the map fails.
pub erase_object : PageFile → ℕ → ℕ → ℕ → Option PageFile
erase_object f n k log_id = elim (delete_object (f n) k log_id) [
  | none ↦ none
  | some p ↦ update_free_map (write_page f n p) p
]
