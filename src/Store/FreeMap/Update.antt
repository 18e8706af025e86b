-- ===== src/Store/FreeMap/Update.antt =====
-- updateFreeMap keeps the free map right, and so createObject always finds room.
use loxim_stats.Base.{
  ℕ, zero, suc, ◌+◌, ◌-◌, ◌%◌, ◌≤◌, ◌<◌, ◌≡◌, ◌≢◌, ◌⊎◌, inl, inr, refl, ap, subst, sym, some, List,
  [], ◌∷◌, ◌++◌, ◌==◌, if◌then◌else◌, length, set, length-append, arith, Bool-cases, ge→ltb, ==→eq,
  ==→ne, ◌∙◌,
}
use loxim_stats.Store.Page.{PageData, max_object_count, object_count, offset_at}
use loxim_stats.Store.Page.Contents.{IsPage}
use loxim_stats.Store.FreeMap.{PageFile, write_page, group_size, set_entry, update_free_map}
use loxim_stats.Store.FreeMap.Search.{IsFreeMap, EntryIsRight}

length-set : (xs : List ℕ) (i v : ℕ) → length (set xs i v) ≡ length xs
length-set [] i v = refl
length-set (x ∷ xs) zero v = refl
length-set (x ∷ xs) (suc i) v = ap suc (length-set xs i v)

offset_at-set :
    (xs : List ℕ) (i j v : ℕ)
    → i < length xs
    → offset_at (set xs i v) j ≡ (if j == i then v else offset_at xs j)
offset_at-set [] i j v h = absurd (omega arith)
offset_at-set (x ∷ xs) zero zero v h = refl
offset_at-set (x ∷ xs) zero (suc j) v h = ground arith
offset_at-set (x ∷ xs) (suc i) zero v h = ground arith
offset_at-set (x ∷ xs) (suc i) (suc j) v h = ground (arith, offset_at-set xs i j v (omega arith))

offset_at-append_one :
    (xs : List ℕ) (j v : ℕ)
    → j ≤ length xs
    → offset_at (xs ++ v ∷ []) j ≡ (if j == length xs then v else offset_at xs j)
offset_at-append_one [] zero v h = refl
offset_at-append_one [] (suc j) v h = absurd (omega arith)
offset_at-append_one (x ∷ xs) zero v h = ground arith
offset_at-append_one (x ∷ xs) (suc j) v h =
    ground (arith, offset_at-append_one xs j v (omega arith))

-- The header page with the entry for its page `offset`, which is known or next.
pub record Entered (h : PageData) (offset space : ℕ) (h' : PageData) : Type 0 where
  pub longer : object_count h ≤ object_count h'
  pub known : offset < object_count h'
  pub shortest : (object_count h' ≤ object_count h) ⊎ (object_count h' ≡ offset + 1)
  pub entry : offset_at h'.object_offset offset ≡ space
  pub others :
      (i : ℕ)
      → i < object_count h'
      → i ≢ offset
      → (i < object_count h) × (offset_at h'.object_offset i ≡ offset_at h.object_offset i)

set_entry-Entered :
    (h : PageData) (offset space : ℕ)
    → offset ≤ object_count h
    → (h' : PageData) × (set_entry h offset space ≡ some h') × Entered h offset space h'
unfolding set_entry
set_entry-Entered h offset space le = elim (Bool-cases (object_count h == offset)) [
  | inl last ↦
      let e = ==→eq _ _ last in
      (
        record h { object_offset = h.object_offset ++ space ∷ []; free_space = h.free_space - 1 },
        rw (ge→ltb (object_count h) offset le, last),
        record {
          longer = omega (arith, length-append h.object_offset (space ∷ []));
          known = omega (arith, e, length-append h.object_offset (space ∷ []));
          shortest = inr (omega (arith, e, length-append h.object_offset (space ∷ [])));
          entry = ground (arith, offset_at-append_one h.object_offset offset space);
          others = λ i lt ne. (
            omega (arith, e, lt, ne, length-append h.object_offset (space ∷ [])),
            ground (
              arith,
              offset_at-append_one h.object_offset i space,
              length-append h.object_offset (space ∷ []),
            ),
          );
        },
      )
  | inr inside ↦
      let ne = ==→ne (object_count h) offset inside in
      (
        record h { object_offset = set h.object_offset offset space },
        rw (ge→ltb (object_count h) offset le, inside),
        record {
          longer = omega (arith, length-set h.object_offset offset space);
          known = omega (arith, ne, length-set h.object_offset offset space);
          shortest = inl (omega (arith, length-set h.object_offset offset space));
          entry = ground (arith, offset_at-set h.object_offset offset offset space);
          others = λ i lt ne'. (
            omega (arith, lt, length-set h.object_offset offset space),
            ground (arith, offset_at-set h.object_offset offset i space),
          );
        },
      )
]

update_free_map_run :
    (f : PageFile) (p h' : PageData)
    → set_entry
        (f (p.header.page_id - p.header.page_id % group_size))
        (p.header.page_id % group_size - 1)
        p.free_space
      ≡ some h'
    → update_free_map f p
      ≡ some (write_page f (p.header.page_id - p.header.page_id % group_size) h')
unfolding update_free_map
update_free_map_run f p h' done = rw (done, update_free_map)

update_free_map_at :
    (f : PageFile) (p h' : PageData) (n : ℕ)
    → p.header.page_id ≡ n
    → set_entry (f (n - n % group_size)) (n % group_size - 1) p.free_space ≡ some h'
    → update_free_map f p ≡ some (write_page f (n - n % group_size) h')
update_free_map_at f p h' n name done =
    subst (λ m. update_free_map f p ≡ some (write_page f (m - m % group_size) h')) name
      (update_free_map_run f p h' (
        subst (λ m. set_entry (f (m - m % group_size)) (m % group_size - 1) p.free_space ≡ some h')
          (sym name) done))

-- Page `n` has changed to `p'`, and so has its entry.
module _ (f : PageFile) (v : IsFreeMap f) (n : ℕ) (p' : PageData) (ok : IsPage p')
    (name : p'.header.page_id ≡ n) (inner : n % group_size ≢ 0) where
  abbrev pub header : ℕ
  header = n - n % group_size

  abbrev pub offset : ℕ
  offset = n % group_size - 1

  module _ (h' : PageData) (entered : Entered (f header) offset p'.free_space h') where
    abbrev pub after : PageFile
    after = write_page (write_page f n p') header h'

    after_header : after header ≡ h'
    after_header = ground arith

    after_page : after n ≡ p'
    after_page = ground arith

    after_other : (m : ℕ) → m ≢ header → m ≢ n → after m ≡ f m
    after_other m ne ne' = ground arith

    entry_header : (i : ℕ) → i < max_object_count → EntryIsRight after header i
    entry_header i lt = elim (Bool-cases (i == offset)) [
      | inl e ↦
          let same : i ≡ offset = ==→eq i offset e in
          let at : header + i + 1 ≡ n = omega arith in
          rw (after_header, at, after_page)
            (
              λ _. ap (offset_at h'.object_offset) same ∙ entered.entry,
              λ le. absurd (omega (arith, entered.known)),
            )
      | inr e ↦
          let ne : i ≢ offset = ==→ne i offset e in
          let old = v.right header i (omega arith) lt in
          rw (after_header, after_other (header + i + 1) (omega arith) (omega arith))
            (
              λ known. let o = entered.others i known ne in o.1 ∙ old.0 o.0,
              λ le. old.1 (omega (arith, entered.longer)),
            )
    ]

    entry_other :
        (h i : ℕ) → h % group_size ≡ 0 → h ≢ header → i < max_object_count → EntryIsRight after h i
    entry_other h i hz ne lt =
        rw
          (
            after_other h ne (λ e. inner (subst (λ m. m % group_size ≡ 0) e hz)),
            after_other (h + i + 1) (omega arith) (omega arith),
          )
          (v.right h i hz lt)

    pub after-IsFreeMap : IsFreeMap after
    after-IsFreeMap = record {
      bounded = λ h hz. elim (Bool-cases (h == header)) [
        | inl e ↦
            rw (==→eq h header e, after_header)
              (omega (arith, entered.shortest, v.bounded header (omega arith)))
        | inr e ↦
            rw
              (after_other h (==→ne h header e) (λ m. inner (subst (λ m. m % group_size ≡ 0) m hz)))
              (v.bounded h hz)
      ];
      right = λ h i hz lt. elim (Bool-cases (h == header)) [
        | inl e ↦ rw (==→eq h header e) (entry_header i lt)
        | inr e ↦ entry_other h i hz (==→ne h header e) lt
      ];
      page = λ m in_group. elim (Bool-cases (m == n)) [
        | inl e ↦ rw (==→eq m n e, after_page) ok
        | inr e ↦ rw (after_other m (omega arith) (==→ne m n e)) (v.page m in_group)
      ];
      named = λ m in_group. elim (Bool-cases (m == n)) [
        | inl e ↦ rw (==→eq m n e, after_page) name
        | inr e ↦ rw (after_other m (omega arith) (==→ne m n e)) (v.named m in_group)
      ];
    }

  -- `update_free_map` succeeds for a page that its header knows or that is next.
  pub update_free_map_lem :
      n % group_size ≤ object_count (f header) + 1
      → (g : PageFile) × (update_free_map (write_page f n p') p' ≡ some g)
        × IsFreeMap g
        × (g n ≡ p')
        × ((m : ℕ) → m % group_size ≢ 0 → m ≢ n → g m ≡ f m)
  unfolding update_free_map
  update_free_map_lem next =
      let (h', done, entered) = set_entry-Entered (f header) offset p'.free_space (omega arith) in
      (
        after h' entered,
        update_free_map_at (write_page f n p') p' h' n name
            (ap (λ h. set_entry h offset p'.free_space) before ∙ done),
        after-IsFreeMap h' entered,
        after_page h' entered,
        λ m in_group ne. after_other h' entered m (omega arith) ne,
      )
    where
      before : write_page f n p' header ≡ f header
      before = ground arith
