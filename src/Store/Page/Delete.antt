-- ===== src/Store/Page/Delete.antt =====
-- The page part of DBStoreManager::deleteObject refines the removal from a list of objects.
use loxim_stats.Base.{
  ℕ, zero, suc, ◌+◌, ◌-◌, ◌*◌, ◌≤◌, ◌<◌, ◌≡◌, refl, ap, sym, ◌∙◌, some, List, [], ◌∷◌, ◌++◌, arith,
  length, drop, set, lt→ltb,
}
use loxim_stats.Store.Page.Memory.{Bytes, clear, clear_below, clear_above, clear_inside}
use loxim_stats.Store.Page.Contents.{
  contents, objects, IsPage, Descending, trim_objects, contents_agree,
}
use loxim_stats.Store.Page.Trim.{
  trim_offsets, cut, trim_table-drop_entry, length-trim_offsets, Descending-trim_offsets,
  last_offset-trim_offsets, contents-trim_offsets, offset_at-append,
}
use loxim_stats.Store.Page.Shift.{
  end_from, end_from-ge, move_up_above, move_up_below, contents-move_up, contents-add_from,
  last_offset-add_from, length-add_from, Descending-add_from,
}
use loxim_stats.Store.Page.Insert.{table_end}
use loxim_stats.Store.Page.{
  PageData, store_pagesize, sizeof_page_data, sizeof_int, object_count, last_offset, offset_at,
  move_up, add_from, drop_entry, trim_table, end_of_object, delete_object,
}

end_from-offset_at :
    (k prev : ℕ) (os : List ℕ) → k < length os → end_from prev (suc k) os ≡ offset_at os k
end_from-offset_at k prev [] h = absurd (omega arith)
end_from-offset_at zero prev (o ∷ os) h = refl
end_from-offset_at (suc k) prev (o ∷ os) h = end_from-offset_at k o os (omega arith)

end_of_object_from :
    (k : ℕ) (os : List ℕ) → k < length os → end_of_object k os ≡ end_from store_pagesize k os
unfolding end_of_object
end_of_object_from zero os h = refl
end_of_object_from (suc k) os h = sym (end_from-offset_at k store_pagesize os (omega arith))

end_from-append :
    (prev b : ℕ) (os : List ℕ) → end_from prev (length os) (os ++ b ∷ []) ≡ last_offset prev os
end_from-append prev b [] = refl
end_from-append prev b (o ∷ os) = end_from-append o b os

end_from-add_from :
    (prev k s : ℕ) (os : List ℕ) → end_from prev k (add_from k s os) ≡ end_from prev k os
unfolding add_from
end_from-add_from prev zero s [] = refl
end_from-add_from prev (suc k) s [] = refl
end_from-add_from prev zero s (o ∷ os) = refl
end_from-add_from prev (suc k) s (o ∷ os) = end_from-add_from o k s os

offset_at-add_from :
    (k s : ℕ) (os : List ℕ) → k < length os → offset_at (add_from k s os) k ≡ offset_at os k + s
unfolding add_from
offset_at-add_from k s [] h = absurd (omega arith)
offset_at-add_from zero s (o ∷ os) h = refl
offset_at-add_from (suc k) s (o ∷ os) h = offset_at-add_from k s os (omega arith)

Descending-drop :
    (k prev : ℕ) (os : List ℕ)
    → Descending prev os
    → k < length os
    → Descending (offset_at os k) (drop (suc k) os)
Descending-drop k prev [] d h = absurd (omega arith)
Descending-drop zero prev (o ∷ os) d h = d.1
Descending-drop (suc k) prev (o ∷ os) d h = Descending-drop k o os d.1 (omega arith)

last_offset-drop :
    (k prev : ℕ) (os : List ℕ)
    → k < length os
    → last_offset (offset_at os k) (drop (suc k) os) ≡ last_offset prev os
last_offset-drop k prev [] h = absurd (omega arith)
last_offset-drop zero prev (o ∷ os) h = refl
last_offset-drop (suc k) prev (o ∷ os) h = last_offset-drop k o os (omega arith)

-- What `delete_object` promises of the new page: the object at `k` is empty, empty objects at the
-- end are gone, what is free is accounted for and cleared.
pub record Deletes (p : PageData) (k : ℕ) (p' : PageData) : Type 0 where
  pub page : IsPage p'
  pub name : p'.header.page_id ≡ p.header.page_id
  pub held : objects p' ≡ trim_objects (set (objects p) k [])
  pub frame : (x : ℕ) → x < table_end p' → p'.bytes x ≡ p.bytes x
  pub cleared :
      (x : ℕ) → table_end p' ≤ x → x < last_offset store_pagesize p'.object_offset → p'.bytes x ≡ 0

deleted-contents :
    (m : Bytes) (prev k : ℕ) (os : List ℕ)
    → Descending prev os
    → k < length os
    → let d = end_from prev k os - offset_at os k in
      contents (move_up m d (offset_at os k) (drop (suc k) os)) prev (add_from k d os)
      ≡ set (contents m prev os) k []
deleted-contents m prev k os desc h =
    contents-add_from m (move_up m d (offset_at os k) rest) prev k os desc h
      (λ x le.
        move_up_above m d (offset_at os k) rest x below
          (omega (arith, (end_from-ge prev k os desc h).0)))
      (contents-move_up m d (offset_at os k) rest below)
  where
    d : ℕ
    d = end_from prev k os - offset_at os k

    rest : List ℕ
    rest = drop (suc k) os

    below : Descending (offset_at os k) rest
    below = Descending-drop k prev os desc h

-- The entry of the deleted object equals the one before it.
emptied :
    (k : ℕ) (os ys : List ℕ) (b : ℕ)
    → Descending store_pagesize os
    → k < length os
    → add_from k (end_from store_pagesize k os - offset_at os k) os ≡ ys ++ b ∷ []
    → k ≡ length ys
    → b ≡ last_offset store_pagesize ys
emptied k os ys b desc h e n = sym at_k ∙ ends
  where
    d : ℕ
    d = end_from store_pagesize k os - offset_at os k

    at_k : offset_at (add_from k d os) k ≡ b
    at_k = rw (e, n) (offset_at-append ys b)

    ends : offset_at (add_from k d os) k ≡ last_offset store_pagesize ys
    ends =
        offset_at-add_from k d os h
        ∙ omega (arith, (end_from-ge store_pagesize k os desc h).0)
        ∙ sym (end_from-add_from store_pagesize k d os)
        ∙ rw (e, n) (end_from-append store_pagesize b ys)

-- The table after the deletion, and the bytes before the end is cleared.
abbrev left : PageData → ℕ → List ℕ
left p k = trim_offsets store_pagesize (
    add_from k (end_from store_pagesize k p.object_offset - offset_at p.object_offset k)
      p.object_offset)

abbrev size_at : PageData → ℕ → ℕ
size_at p k = end_from store_pagesize k p.object_offset - offset_at p.object_offset k

abbrev moved : PageData → ℕ → Bytes
moved p k =
    move_up p.bytes (size_at p k) (offset_at p.object_offset k) (drop (suc k) p.object_offset)

abbrev deleted : PageData → ℕ → ℕ → PageData
deleted p k log_id =
    let end = sizeof_page_data + sizeof_int * length (left p k) in
    record p {
      header = record p.header { timestamp = log_id };
      free_space = p.free_space + size_at p k + sizeof_int * (object_count p - length (left p k));
      object_offset = left p k;
      bytes = clear (moved p k) end (last_offset store_pagesize (left p k) - end);
    }

delete_object-deleted :
    (p : PageData) (k log_id : ℕ)
    → IsPage p
    → k < object_count p
    → delete_object p k log_id ≡ some (deleted p k log_id)
unfolding delete_object
delete_object-deleted p k log_id v h =
    rw (lt→ltb k (object_count p) h, end_of_object_from k p.object_offset h, trimmed)
      (ap (λ n. some (record (deleted p k log_id) { free_space = n })) same)
  where
    entries : List ℕ
    entries = add_from k (size_at p k) p.object_offset

    trimmed :
        trim_table (drop_entry k (size_at p k) entries p.free_space)
        ≡ cut entries (p.free_space + size_at p k)
    trimmed =
        trim_table-drop_entry k (size_at p k) p.free_space entries
          (Descending-add_from store_pagesize k p.object_offset v.ordered h)
          (omega (arith, length-add_from k (size_at p k) p.object_offset))
          (λ ys b. emptied k p.object_offset ys b v.ordered h)

    same :
        (cut entries (p.free_space + size_at p k)).1
        ≡ p.free_space + size_at p k + sizeof_int * (object_count p - length (left p k))
    same = omega (arith, length-add_from k (size_at p k) p.object_offset)

deleted-Deletes :
    (p : PageData) (k log_id : ℕ) → IsPage p → k < object_count p → Deletes p k (deleted p k log_id)
deleted-Deletes p k log_id v h = record {
  name = refl;
  page = record {
    ordered = Descending-trim_offsets store_pagesize entries desc;
    accounted = omega (arith, fewer, ends);
  };
  held =
      contents_agree (deleted p k log_id).bytes (moved p k) store_pagesize (left p k)
        (Descending-trim_offsets store_pagesize entries desc)
        (λ x lo hi. clear_above (moved p k) end (last - end) x (omega (arith, ends, fewer)))
      ∙ contents-trim_offsets (moved p k) store_pagesize entries desc
      ∙ ap trim_objects (deleted-contents p.bytes store_pagesize k p.object_offset v.ordered h);
  frame = λ x lt.
      clear_below (moved p k) end (last - end) x lt
      ∙ move_up_below p.bytes (size_at p k) (offset_at p.object_offset k)
          (drop (suc k) p.object_offset) x
          (Descending-drop k store_pagesize p.object_offset v.ordered h)
          (omega (arith, lt, fewer, ends, last_offset-drop k store_pagesize p.object_offset h));
  cleared = λ x lo hi. clear_inside (moved p k) end (last - end) x lo (omega arith);
}
  where
    entries : List ℕ
    entries = add_from k (size_at p k) p.object_offset

    end : ℕ
    end = sizeof_page_data + sizeof_int * length (left p k)

    last : ℕ
    last = last_offset store_pagesize (left p k)

    desc : Descending store_pagesize entries
    desc = Descending-add_from store_pagesize k p.object_offset v.ordered h

    fewer : length (left p k) ≤ object_count p
    fewer = omega (
      arith,
      length-trim_offsets store_pagesize entries,
      length-add_from k (size_at p k) p.object_offset,
    )

    ends : last ≡ last_offset store_pagesize p.object_offset + size_at p k
    ends =
        last_offset-trim_offsets store_pagesize entries
        ∙ last_offset-add_from k (size_at p k) store_pagesize p.object_offset h

-- On a well-formed page `delete_object` at an index of the table succeeds: the page stays well-formed
-- and keeps its number, it holds the old objects with that one emptied and without empty ones at the end, header and
-- table are not written over, and the free area between table and objects is zero.
pub delete_object-Deletes :
    (p : PageData) (k log_id : ℕ)
    → IsPage p
    → k < object_count p
    → (p' : PageData) × (delete_object p k log_id ≡ some p') × Deletes p k p'
delete_object-Deletes p k log_id v h =
    (deleted p k log_id, delete_object-deleted p k log_id v h, deleted-Deletes p k log_id v h)
