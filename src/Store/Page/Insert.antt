-- ===== src/Store/Page/Insert.antt =====
-- PageManager::insertObject refines the insertion into a list of objects.
use loxim_stats.Base.{
  ℕ, zero, suc, ◌+◌, ◌-◌, ◌*◌, ◌≤◌, ◌<◌, ◌≡◌, refl, ap, ap₂, sym, ◌∙◌, inl, inr, List, [], ◌∷◌,
  ◌++◌, arith, length, length-append, ltb, Bool-cases, ltb→lt, ltb→ge,
}
use loxim_stats.Store.Page.Memory.{
  Bytes, read, write_object, shift_down, read-write_object, write_object_below, write_object_above,
  shift_down_inside, shift_down_outside,
}
use loxim_stats.Store.Page.Contents.{
  contents, objects, Descending, IsPage, slot, put, length-contents, last_offset-append,
  Descending-append, contents_agree, contents-append, last_offset-le-offset_at,
}
use loxim_stats.Store.Page.Slots.{Finds, scan_offsets-Finds, find_empty-scan, hole-contents}
use loxim_stats.Store.Page.{
  PageData, InsertResult, inserted, failed, no_space, no_entry_space, corrupted_offsets, Scan, hole,
  full, corrupted, store_pagesize, sizeof_page_data, sizeof_int, object_count, last_offset,
  find_empty, sub_from, offset_at, insert_last, insert_hole, insert_at, insert_object,
}

put_full :
    (obj : List ℕ) (objs : List (List ℕ))
    → slot objs ≡ length objs
    → put obj objs ≡ objs ++ obj ∷ []
put_full obj [] h = refl
put_full obj ([] ∷ rest) h = absurd (omega arith)
put_full obj ((b ∷ bs) ∷ rest) h = ap (λ xs. (b ∷ bs) ∷ xs) (put_full obj rest (omega arith))

length-sub_from : (r s : ℕ) (os : List ℕ) → length (sub_from r s os) ≡ length os
unfolding sub_from
length-sub_from zero s [] = refl
length-sub_from (suc r) s [] = refl
length-sub_from zero s (o ∷ os) = ap suc (length-sub_from zero s os)
length-sub_from (suc r) s (o ∷ os) = ap suc (length-sub_from r s os)

Descending-sub_zero :
    (s prev : ℕ) (os : List ℕ) → Descending prev os → Descending (prev - s) (sub_from 0 s os)
unfolding sub_from
Descending-sub_zero s prev [] d = tt
Descending-sub_zero s prev (o ∷ os) d = (omega arith, Descending-sub_zero s o os d.1)

Descending-sub_from :
    (r s prev : ℕ) (os : List ℕ) → Descending prev os → Descending prev (sub_from r s os)
unfolding sub_from
Descending-sub_from zero s prev [] d = tt
Descending-sub_from (suc r) s prev [] d = tt
Descending-sub_from zero s prev (o ∷ os) d = (omega arith, Descending-sub_zero s o os d.1)
Descending-sub_from (suc r) s prev (o ∷ os) d = (d.0, Descending-sub_from r s o os d.1)

last_offset-sub_zero :
    (s prev : ℕ) (os : List ℕ) → last_offset (prev - s) (sub_from 0 s os) ≡ last_offset prev os - s
unfolding sub_from
last_offset-sub_zero s prev [] = refl
last_offset-sub_zero s prev (o ∷ os) = last_offset-sub_zero s o os

last_offset-sub_from :
    (r s prev : ℕ) (os : List ℕ)
    → r < length os
    → last_offset prev (sub_from r s os) ≡ last_offset prev os - s
unfolding sub_from
last_offset-sub_from r s prev [] h = absurd (omega arith)
last_offset-sub_from zero s prev (o ∷ os) h = last_offset-sub_zero s o os
last_offset-sub_from (suc r) s prev (o ∷ os) h = last_offset-sub_from r s o os (omega arith)

-- Where the table ends and the free space starts.
abbrev pub table_end : PageData → ℕ
table_end p = sizeof_page_data + sizeof_int * object_count p

-- What a caller of `insert_object` may rely on, for each of its outcomes.
abbrev pub Implements : PageData → List ℕ → ℕ → InsertResult → Type 0
Implements p obj log_id (inserted p' k) =
    IsPage p'
    × (objects p' ≡ put obj (objects p))
    × (k ≡ slot (objects p))
    × ((x : ℕ) → x < table_end p' → p'.bytes x ≡ p.bytes x)
    × (length obj + p'.free_space + table_end p' ≡ p.free_space + table_end p)
    × (p'.header ≡ record p.header { timestamp = log_id })
Implements p obj log_id (failed no_space) = p.free_space < length obj
Implements p obj log_id (failed no_entry_space) =
    (p.free_space < length obj + sizeof_int) × (slot (objects p) ≡ length (objects p))
Implements p obj log_id (failed corrupted_offsets) = ⊥

insert_last-Implements :
    (p : PageData) (obj : List ℕ) (log_id : ℕ)
    → IsPage p
    → slot (objects p) ≡ length (objects p)
    → length obj + sizeof_int ≤ p.free_space
    → Implements p obj log_id (inserted (insert_last p obj log_id) (object_count p))
unfolding insert_last
insert_last-Implements p obj log_id v e fits = (
  record {
    ordered = Descending-append store_pagesize n os v.ordered (omega arith);
    accounted = omega (arith, last_offset-append store_pagesize n os, counted);
  },
  held,
  sym (e ∙ length-contents p.bytes store_pagesize os),
  (λ x lt. write_object_below p.bytes n obj x (omega (arith, counted, lt))),
  omega (arith, counted),
  refl,
)
  where
    os : List ℕ
    os = p.object_offset

    last : ℕ
    last = last_offset store_pagesize os

    n : ℕ
    n = last - length obj

    m' : Bytes
    m' = write_object p.bytes n obj

    counted : length (os ++ n ∷ []) ≡ length os + 1
    counted = length-append os (n ∷ [])

    same : contents m' store_pagesize os ≡ contents p.bytes store_pagesize os
    same =
        contents_agree m' p.bytes store_pagesize os v.ordered
          λ x le _. write_object_above p.bytes n obj x (omega arith)

    new : read m' n (last - n) ≡ obj
    new = ap (read m' n) (omega arith) ∙ read-write_object p.bytes n obj

    held : contents m' store_pagesize (os ++ n ∷ []) ≡ put obj (objects p)
    held =
        contents-append m' store_pagesize n os
        ∙ ap₂ (λ xs x. xs ++ x ∷ []) same new
        ∙ sym (put_full obj (objects p) e)

insert_hole-Implements :
    (p : PageData) (obj : List ℕ) (log_id r : ℕ)
    → IsPage p
    → slot (objects p) ≡ r
    → r < object_count p
    → length obj ≤ p.free_space
    → Implements p obj log_id (inserted (insert_hole p obj log_id r) r)
unfolding insert_hole
insert_hole-Implements p obj log_id r v e lt fits = (
  record {
    ordered = Descending-sub_from r s store_pagesize os v.ordered;
    accounted =
        omega (arith, last_offset-sub_from r s store_pagesize os lt, length-sub_from r s os);
  },
  hole-contents p.bytes m' obj store_pagesize r os v.ordered e lt fits' above moved
      (read-write_object down (start - s) obj),
  sym e,
  below,
  omega (arith, length-sub_from r s os),
  refl,
)
  where
    os : List ℕ
    os = p.object_offset

    s : ℕ
    s = length obj

    last : ℕ
    last = last_offset store_pagesize os

    start : ℕ
    start = offset_at os r

    down : Bytes
    down = shift_down p.bytes s last (start - last)

    m' : Bytes
    m' = write_object down (start - s) obj

    fits' : s ≤ last
    fits' = omega arith

    order : last ≤ start
    order = last_offset-le-offset_at store_pagesize r os v.ordered lt

    above : (x : ℕ) → start ≤ x → p.bytes x ≡ m' x
    above x le = sym (
        write_object_above down (start - s) obj x (omega (arith, fits', order))
        ∙ shift_down_outside p.bytes s last (start - last) x fits' (inr (omega (arith, order))))

    moved : (x : ℕ) → last ≤ x → x < start → m' (x - s) ≡ p.bytes x
    moved x lo hi =
        write_object_below down (start - s) obj (x - s) (omega (arith, fits'))
        ∙ shift_down_inside p.bytes s last (start - last) (x - s) fits' (omega (arith, fits'))
            (omega (arith, fits'))
        ∙ ap p.bytes (omega (arith, fits'))

    below : (x : ℕ) → x < table_end (insert_hole p obj log_id r) → m' x ≡ p.bytes x
    below x h =
        write_object_below down (start - s) obj x
          (omega (arith, fits', order, length-sub_from r s os))
        ∙ shift_down_outside p.bytes s last (start - last) x fits'
            (inl (omega (arith, length-sub_from r s os)))

insert_at-Implements :
    (p : PageData) (obj : List ℕ) (log_id : ℕ) (found : Scan)
    → IsPage p
    → length obj ≤ p.free_space
    → Finds 0 (objects p) found
    → Implements p obj log_id (insert_at p obj log_id found)
unfolding insert_at
insert_at-Implements p obj log_id corrupted v fits f = f
insert_at-Implements p obj log_id (hole r) v fits f =
    insert_hole-Implements p obj log_id r v (omega arith)
      (omega (arith, length-contents p.bytes store_pagesize p.object_offset)) fits
insert_at-Implements p obj log_id full v fits f =
    elim (Bool-cases (ltb p.free_space (length obj + sizeof_int))) [
      | inl low ↦ rw low (ltb→lt _ _ low, f)
      | inr room ↦ rw room (insert_last-Implements p obj log_id v f (ltb→ge _ _ room))
    ]

-- On a well-formed page `insert_object` puts the object in the first empty place, or behind the last
-- one: the page stays well-formed and holds exactly what the list operation `put` gives, the index
-- returned is that of the object, the header keeps its fields but the time stamp, header and table are not written over, and what the
-- object and its entry take is taken from the free space. It fails only if the object does not
-- fit, or no place is empty and there is no room for the object and a new entry.
pub insert_object-Implements :
    (p : PageData) (obj : List ℕ) (log_id : ℕ)
    → IsPage p
    → Implements p obj log_id (insert_object p obj log_id)
unfolding insert_object
insert_object-Implements p obj log_id v = elim (Bool-cases (ltb p.free_space (length obj))) [
  | inl low ↦ rw low (ltb→lt _ _ low)
  | inr room ↦
      rw room
        (insert_at-Implements p obj log_id (find_empty p.object_offset) v (ltb→ge _ _ room) found)
]
  where
    found : Finds 0 (objects p) (find_empty p.object_offset)
    found =
        rw (find_empty-scan p.object_offset v.ordered)
          (scan_offsets-Finds p.bytes 0 store_pagesize p.object_offset v.ordered)
