-- ===== src/Store/FreeMap/Objects.antt =====
-- createObject and deleteObject on the pages: both keep the free map right.
use loxim_stats.Base.{
  ℕ, ◌+◌, ◌-◌, ◌*◌, ◌%◌, ◌≤◌, ◌<◌, ◌≡◌, ◌≢◌, ap, Option, none, some, List, [], length, set, arith,
  ◌∙◌,
}
use loxim_stats.Store.Page.{
  InsertResult, inserted, failed, no_space, no_entry_space, corrupted_offsets, sizeof_int,
  max_object_count, max_free_space, object_count, insert_object,
}
use loxim_stats.Store.Page.Contents.{objects, put, slot, trim_objects}
use loxim_stats.Store.Page.Insert.{Implements, insert_object-Implements}
use loxim_stats.Store.FreeMap.{
  PageFile, group_size, Stored, stored, finish_store, store_object, erase_object,
}
use loxim_stats.Store.Page.Delete.{delete_object-Deletes}
use loxim_stats.Store.FreeMap.Update.{update_free_map_lem}
use loxim_stats.Store.FreeMap.Search.{IsFreeMap, get_free_page-some, get_free_page_ends}

-- What a caller of `store_object` may rely on.
abbrev pub Stores : PageFile → List ℕ → Stored → Type 0
Stores f obj (stored g n k) =
    IsFreeMap g
    × (n % group_size ≢ 0)
    × (objects (g n) ≡ put obj (objects (f n)))
    × (k ≡ slot (objects (f n)))
    × ((m : ℕ) → m % group_size ≢ 0 → m ≢ n → g m ≡ f m)
Stores f obj _ = ⊥

finish_store-Stores :
    (f : PageFile) (v : IsFreeMap f) (obj : List ℕ) (log_id n : ℕ) (r : InsertResult)
    → n % group_size ≢ 0
    → n % group_size ≤ object_count (f (n - n % group_size)) + 1
    → length obj + sizeof_int ≤ (f n).free_space
    → Implements (f n) obj log_id r
    → Stores f obj (finish_store f n r)
unfolding finish_store
finish_store-Stores f v obj log_id n (failed no_space) inner next room i = absurd (omega arith)
finish_store-Stores f v obj log_id n (failed no_entry_space) inner next room i =
    absurd (omega arith)
finish_store-Stores f v obj log_id n (failed corrupted_offsets) inner next room i = i
finish_store-Stores f v obj log_id n (inserted p' k) inner next room
      (ok, held, place, _, _, header) =
    let name : p'.header.page_id ≡ n = ap (λ h. h.page_id) header ∙ v.named n inner in
    let (g, done, right, new, others) = update_free_map_lem f v n p' ok name inner next in
    rw (done, finish_store) (right, inner, ap objects new ∙ held, place, others)

-- With a free map that is right and a header page with room among the first `j + 1`, an object that
-- fits into a fresh page is always stored: neither the insertion nor the update of the map fails,
-- the free map stays right, the page found holds the object as `put` says, its index is returned,
-- and no other data page changes.
pub store_object-Stores :
    (f : PageFile) (obj : List ℕ) (log_id fuel j : ℕ)
    → IsFreeMap f
    → length obj + sizeof_int ≤ max_free_space
    → j < fuel
    → object_count (f (j * group_size)) < max_object_count
    → Stores f obj (store_object fuel f obj log_id)
unfolding store_object
store_object-Stores f obj log_id fuel j v fits enough room =
    let (n, found) = get_free_page_ends fuel j f (length obj) 0 enough (rw start room) in
    let (inner, next, space) =
      get_free_page-some fuel f (length obj) 0 n v (omega arith) fits found in
    rw (found, store_object)
      (finish_store-Stores f v obj log_id n (insert_object (f n) obj log_id) inner next space
        (insert_object-Implements (f n) obj log_id (v.page n inner)))
  where
    start : 0 + j * group_size ≡ j * group_size
    start = omega arith

-- What a caller of `erase_object` may rely on.
abbrev pub Erases : PageFile → ℕ → ℕ → Option PageFile → Type 0
Erases f n k none = ⊥
Erases f n k (some g) =
    IsFreeMap g
    × (objects (g n) ≡ trim_objects (set (objects (f n)) k []))
    × ((m : ℕ) → m % group_size ≢ 0 → m ≢ n → g m ≡ f m)

-- Deleting an object of a page that its header knows succeeds: the free map stays right, that page
-- holds the other objects as before, and no other data page changes.
pub erase_object-Erases :
    (f : PageFile) (n k log_id : ℕ)
    → IsFreeMap f
    → n % group_size ≢ 0
    → n % group_size ≤ object_count (f (n - n % group_size)) + 1
    → k < object_count (f n)
    → Erases f n k (erase_object f n k log_id)
unfolding erase_object
erase_object-Erases f n k log_id v inner next inside =
    let (p', gone, d) = delete_object-Deletes (f n) k log_id (v.page n inner) inside in
    let (g, done, right, new, others) =
      update_free_map_lem f v n p' d.page (d.name ∙ v.named n inner) inner next in
    rw (gone, done, erase_object) (right, ap objects new ∙ d.held, others)
