-- ===== src/Store/Page.antt =====
-- src/Store/Struct.h, PageManager.cpp and the page part of DBStoreManager::deleteObject: a slotted
-- page. Objects grow down from the end of the page, the offset table grows up behind the header.
-- The memory of the objects is a function from addresses; header and table are fields of their own.
-- `PageData.object_offset` holds the entries in use, so `object_count` is its length. The numbers
-- are the source's ints where these are not negative, as they are on every well-formed page.
pub mod Memory
pub mod Contents
pub mod Slots
pub mod Insert
pub mod Trim
pub mod Shift
pub mod Delete
mod Examples
use loxim_stats.Base.{
  ℕ, zero, suc, ◌+◌, ◌-◌, ◌*◌, ◌/◌, ◌%◌, Bool, Option, none, some, List, [], ◌∷◌, ◌++◌, map, ltb,
  leb, ◌==◌, if◌then◌else◌, length, take, drop,
}
use Memory.{Bytes, read, write_object, shift_down, clear}

abbrev pub store_pagesize : ℕ
store_pagesize = 0x4000

-- sizeof(page_data) and sizeof(int).
abbrev pub sizeof_page_data : ℕ
sizeof_page_data = 20

abbrev pub sizeof_int : ℕ
sizeof_int = 4

abbrev pub max_free_space : ℕ
max_free_space = store_pagesize - sizeof_page_data

abbrev pub max_object_count : ℕ
max_object_count = max_free_space / sizeof_int

pub record PageHeader : Type 0 where
  pub page_id : ℕ
  pub file_id : ℕ
  pub page_type : ℕ
  pub timestamp : ℕ

pub record PageData : Type 0 where
  pub header : PageHeader
  pub free_space : ℕ
  pub object_offset : List ℕ
  pub bytes : Bytes

abbrev pub store_file_default : ℕ
store_file_default = 0x0001

abbrev pub store_page_dataheader : ℕ
store_page_dataheader = 0x0001

abbrev pub store_page_datapage : ℕ
store_page_datapage = 0x0002

-- Every (max_object_count + 1)-th page holds the free space of the pages behind it.
unfoldable pub is_free_map_page : ℕ → Bool
is_free_map_page page_num = page_num % (max_object_count + 1) == 0

unfoldable pub initialize_page : ℕ → PageData
unfolding is_free_map_page
initialize_page page_num = record {
  header = record {
    page_id = page_num;
    file_id = store_file_default;
    page_type = if is_free_map_page page_num then store_page_dataheader else store_page_datapage;
    timestamp = 0;
  };
  free_space = if is_free_map_page page_num then max_object_count else max_free_space;
  object_offset = [];
  bytes = λ a. 0;
}

abbrev pub object_count : PageData → ℕ
object_count p = length p.object_offset

-- The last entry of the table, or where the first object would end.
abbrev pub last_offset : ℕ → List ℕ → ℕ
last_offset prev [] = prev
last_offset prev (o ∷ os) = last_offset o os

-- What the search for an empty object finds: one at an index, none, or entries out of order.
pub data Scan : Type 0 where
  hole : ℕ → Scan
  full : Scan
  corrupted : Scan

-- An empty object has the same offset as its predecessor; `i` is the index of the next entry.
pub scan_offsets : ℕ → ℕ → List ℕ → Scan
scan_offsets i prev [] = full
scan_offsets i prev (o ∷ os) =
    let rest = scan_offsets (suc i) o os in
    if leb prev o then (if ltb prev o then corrupted else hole i) else rest

pub find_empty : List ℕ → Scan
find_empty [] = full
find_empty (o ∷ os) = if o == store_pagesize then hole 0 else scan_offsets 1 o os

-- Entries from index `r` on, less `s`.
pub sub_from : ℕ → ℕ → List ℕ → List ℕ
sub_from r s [] = []
sub_from zero s (o ∷ os) = (o - s) ∷ sub_from zero s os
sub_from (suc r) s (o ∷ os) = o ∷ sub_from r s os

abbrev pub offset_at : List ℕ → ℕ → ℕ
offset_at [] i = 0
offset_at (o ∷ os) zero = o
offset_at (o ∷ os) (suc i) = offset_at os i

-- The return codes -1, -2 and -11.
pub data InsertError : Type 0 where
  no_space : InsertError
  no_entry_space : InsertError
  corrupted_offsets : InsertError

pub data InsertResult : Type 0 where
  inserted : PageData → ℕ → InsertResult
  failed : InsertError → InsertResult

-- A new object behind the last one.
pub insert_last : PageData → List ℕ → ℕ → PageData
insert_last p obj log_id =
    let newoffset = last_offset store_pagesize p.object_offset - length obj in
    record p {
      header = record p.header { timestamp = log_id };
      free_space = p.free_space - (length obj + sizeof_int);
      object_offset = p.object_offset ++ newoffset ∷ [];
      bytes = write_object p.bytes newoffset obj;
    }

-- A new object in place of the empty one at `r`; those behind it move down.
pub insert_hole : PageData → List ℕ → ℕ → ℕ → PageData
insert_hole p obj log_id r =
    let last = last_offset store_pagesize p.object_offset in
    let start = offset_at p.object_offset r in
    let size = length obj in
    record p {
      header = record p.header { timestamp = log_id };
      free_space = p.free_space - size;
      object_offset = sub_from r size p.object_offset;
      bytes = write_object (shift_down p.bytes size last (start - last)) (start - size) obj;
    }

-- The outcome when the search has ended.
pub insert_at : PageData → List ℕ → ℕ → Scan → InsertResult
insert_at p obj log_id corrupted = failed corrupted_offsets
insert_at p obj log_id full =
    if ltb p.free_space (length obj + sizeof_int)
    then failed no_entry_space
    else inserted (insert_last p obj log_id) (object_count p)
insert_at p obj log_id (hole r) = inserted (insert_hole p obj log_id r) r

pub insert_object : PageData → List ℕ → ℕ → InsertResult
unfolding insert_at find_empty scan_offsets insert_last insert_hole sub_from write_object
insert_object p obj log_id =
    if ltb p.free_space (length obj)
    then failed no_space
    else insert_at p obj log_id (find_empty p.object_offset)

-- Each object behind the deleted one moves up by `d` bytes, through a buffer.
pub move_up : Bytes → ℕ → ℕ → List ℕ → Bytes
move_up m d prev [] = m
move_up m d prev (o ∷ os) = move_up (write_object m (o + d) (read m o (prev - o))) d o os

-- Entries from index `r` on, plus `s`.
pub add_from : ℕ → ℕ → List ℕ → List ℕ
add_from r s [] = []
add_from zero s (o ∷ os) = (o + s) ∷ add_from zero s os
add_from (suc r) s (o ∷ os) = o ∷ add_from r s os

-- The entries in use and the free space, while empty objects are cut off from index `i` down.
pub trim_end : ℕ → List ℕ → ℕ → List ℕ × ℕ
trim_end zero os free = (os, free)
trim_end (suc i) os free =
    let rest = trim_end i (take (suc i) os) (free + sizeof_int) in
    if leb (offset_at os i) (offset_at os (suc i))
    then (if ltb (offset_at os i) (offset_at os (suc i)) then (os, free) else rest)
    else (os, free)

pub trim_first : List ℕ × ℕ → List ℕ × ℕ
trim_first ([], free) = ([], free)
trim_first (o ∷ [], free) = if o == store_pagesize then ([], free + sizeof_int) else (o ∷ [], free)
trim_first (o ∷ o' ∷ os, free) = (o ∷ o' ∷ os, free)

-- The table and the free space once the object at `k` is gone, before empty ones are cut off.
pub drop_entry : ℕ → ℕ → List ℕ → ℕ → List ℕ × ℕ
drop_entry k size os free =
    if length os - 1 == k
    then (take (length os - 1) os, free + size + sizeof_int)
    else (os, free + size)

abbrev pub trim_table : List ℕ × ℕ → List ℕ × ℕ
trim_table (os, free) = trim_first (trim_end (length os - 1) os free)

-- Where the object at `k` ends.
pub end_of_object : ℕ → List ℕ → ℕ
end_of_object zero os = store_pagesize
end_of_object (suc k) os = offset_at os k

-- The page part of DBStoreManager::deleteObject. `none`: the index is beyond the table, and the
-- source reads what happens to stand there.
pub delete_object : PageData → ℕ → ℕ → Option PageData
unfolding end_of_object
delete_object p k log_id =
    let os = p.object_offset in
    let size = end_of_object k os - offset_at os k in
    let moved = move_up p.bytes size (offset_at os k) (drop (suc k) os) in
    let (left, free) = trim_table (drop_entry k size (add_from k size os) p.free_space) in
    let table_end = sizeof_page_data + sizeof_int * length left in
    if ltb k (length os)
    then some (record p {
      header = record p.header { timestamp = log_id };
      free_space = free;
      object_offset = left;
      bytes = clear moved table_end (last_offset store_pagesize left - table_end);
    })
    else none
