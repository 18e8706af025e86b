-- ===== src/Store/Map.antt =====
-- src/Store/Map.cpp: the map from logical identifiers to physical ones. An entry is the eight bytes of
-- a physical_id; page 0 of the file keeps the last identifier that was assigned, the entries
-- stand on the pages behind it. The value of the log's timer is an argument.
pub mod Entries
pub mod Create
pub mod Assign
pub mod Set
mod Examples
use loxim_stats.Base.{
  ℕ, zero, suc, ◌+◌, ◌-◌, ◌*◌, ◌/◌, ◌%◌, ◌^◌, Bool, true, false, ◌||◌, Option, none, some, List, [],
  ◌∷◌, ltb, ◌==◌, if◌then◌else◌,
}
use loxim_stats.Store.Page.{PageHeader, store_pagesize}
use loxim_stats.Store.Page.Memory.{Bytes, read, write_object}

abbrev pub store_file_map : ℕ
store_file_map = 0xFF10

abbrev pub store_page_mapheader : ℕ
store_page_mapheader = 0x1001

abbrev pub store_page_mappage : ℕ
store_page_mappage = 0x1002

abbrev pub sizeof_map_page : ℕ
sizeof_map_page = 12

abbrev pub sizeof_physical_id : ℕ
sizeof_physical_id = 8

abbrev pub store_map_perpage : ℕ
store_map_perpage = (store_pagesize - sizeof_map_page) / sizeof_physical_id

abbrev pub store_map_mappage : ℕ → ℕ
store_map_mappage i = 1 + i / store_map_perpage

abbrev pub store_map_mapoffset : ℕ → ℕ
store_map_mapoffset i = sizeof_map_page + sizeof_physical_id * (i % store_map_perpage)

-- The bytes of a physical_id.
abbrev pub PhysicalId : Type 0
PhysicalId = List ℕ

abbrev pub rip : PhysicalId
rip = 0xFF ∷ 0xFF ∷ 0xFF ∷ 0xFF ∷ 0xFF ∷ 0xFF ∷ 0xFF ∷ 0xFF ∷ []

pub record MapHeader : Type 0 where
  pub page_hdr : PageHeader
  pub page_count : ℕ
  pub last_assigned : ℕ

pub record MapPage : Type 0 where
  pub page_hdr : PageHeader
  pub bytes : Bytes

pub record MapFile : Type 0 where
  pub header : MapHeader
  pub page : ℕ → MapPage

abbrev pub write_map_page : (ℕ → MapPage) → ℕ → MapPage → ℕ → MapPage
write_map_page page n p = λ m. if m == n then p else page m

abbrev pub empty_page : ℕ → MapPage
empty_page i = record {
  page_hdr = record {
    page_id = i;
    file_id = store_file_map;
    page_type = store_page_mappage;
    timestamp = 0;
  };
  bytes = λ a. 0;
}

-- The loop that writes `n` empty pages from page `i` on.
pub write_empty_pages : ℕ → ℕ → (ℕ → MapPage) → ℕ → MapPage
write_empty_pages zero i page = page
write_empty_pages (suc n) i page =
    write_empty_pages n (suc i) (write_map_page page i (empty_page i))

-- Pages beyond those that are written are whatever they were.
unfoldable pub initialize_file : (ℕ → MapPage) → MapFile
unfolding write_empty_pages
initialize_file page = record {
  header = record {
    page_hdr = record {
      page_id = 0;
      file_id = store_file_map;
      page_type = store_page_mapheader;
      timestamp = 0;
    };
    page_count = 16;
    last_assigned = 0;
  };
  page = write_empty_pages 15 1 page;
}

abbrev pub get_last_assigned : MapFile → ℕ
get_last_assigned f = f.header.last_assigned

abbrev pub set_last_assigned : ℕ → MapFile → ℕ → MapFile
set_last_assigned timer f last = record f {
  header = record f.header {
    page_hdr = record f.header.page_hdr { timestamp = timer };
    last_assigned = last;
  };
}

-- memcpy of an entry, and the time stamp of its page.
unfoldable pub write_entry : ℕ → MapFile → ℕ → PhysicalId → MapFile
unfolding write_object
write_entry timer f i entry =
    let p = f.page (store_map_mappage i) in
    record f {
      page = write_map_page f.page (store_map_mappage i) (record p {
        page_hdr = record p.page_hdr { timestamp = timer };
        bytes = write_object p.bytes (store_map_mapoffset i) entry;
      });
    }

abbrev pub uint_mod : ℕ
uint_mod = 2 ^ 32

-- The map with a new entry, and the new identifier, an unsigned int.
unfoldable pub create_logical_id : ℕ → MapFile → MapFile × ℕ
unfolding write_entry
create_logical_id timer f =
    let next = (get_last_assigned f + 1) % uint_mod in
    (set_last_assigned timer (write_entry timer f next rip) next, next)

-- The return codes 0, 1 and 2.
pub data Lookup : Type 0 where
  found : PhysicalId → Lookup
  null_id : Lookup
  not_assigned : Lookup

unfoldable pub get_physical_id : MapFile → ℕ → Lookup
unfolding read
get_physical_id f i =
    if i == 0
    then null_id
    else if ltb (get_last_assigned f) i
    then not_assigned
    else found
        (read (f.page (store_map_mappage i)).bytes (store_map_mapoffset i) sizeof_physical_id)

abbrev pub max_logical_id : ℕ
max_logical_id = 10000000

-- The file and the return code; `none`: the fuel ran out.
abbrev pub SetResult : Type 0
SetResult = Option (MapFile × ℕ)

-- The loop that assigns the identifiers up to `i`; `put` is the recursive call for each of them,
-- whose code is ignored. A round uses one unit of fuel.
pub assign : (MapFile → ℕ → SetResult) → ℕ → ℕ → MapFile → ℕ → Option MapFile
unfolding create_logical_id
assign put zero timer f i = none
assign put (suc rounds) timer f i = elim (ltb (get_last_assigned f) i) [
  | false ↦ some f
  | true ↦
      let (g, ll) = create_logical_id timer f in
      elim (put g ll) [ none ↦ none | some (h, code) ↦ assign put rounds timer h i ]
]

abbrev pub then_write : ℕ → ℕ → PhysicalId → Option MapFile → SetResult
then_write timer i entry none = none
then_write timer i entry (some f) = some (write_entry timer f i entry, 0)

-- `depth` bounds the recursive calls, `rounds` the loop of each. A null pointer is `none`.
pub set_physical_id : ℕ → ℕ → ℕ → MapFile → ℕ → Option PhysicalId → SetResult
unfolding assign write_entry
set_physical_id zero rounds timer f i entry = none
set_physical_id (suc depth) rounds timer f i none = some (f, 1)
set_physical_id (suc depth) rounds timer f i (some entry) =
    if i == 0
    then some (f, 1)
    else if ltb max_logical_id i
    then some (f, 2)
    else elim (ltb (get_last_assigned f) i) [
      | false ↦ some (write_entry timer f i entry, 0)
      | true ↦
          then_write timer i entry
            (assign (λ g ll. set_physical_id depth rounds timer g ll (some rip)) rounds timer f i)
    ]
