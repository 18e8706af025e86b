-- ===== src/Store/FreeMap/Search.antt =====
-- The free map is right about the pages, and the search relies on it.
use loxim_stats.Base.{
  ℕ, zero, suc, ◌+◌, ◌-◌, ◌*◌, ◌%◌, ◌≤◌, ◌<◌, ◌≡◌, ◌≢◌, inl, inr, none, some, List, [], ◌∷◌, ltb,
  leb, if◌then◌else◌, length, arith, Bool-cases, Option-cases, leb→le, ltb→lt, some_inj, lt→ltb,
  ◌∙◌,
}
use loxim_stats.Store.Page.{sizeof_int, max_object_count, max_free_space, object_count, offset_at}
use loxim_stats.Store.Page.Contents.{IsPage}
use loxim_stats.Store.FreeMap.{PageFile, group_size, find_entry, offer, get_free_page}

-- Page `i` behind the header at `h`: its entry is its free space, or it has none and is empty.
abbrev pub EntryIsRight : PageFile → ℕ → ℕ → Type 0
EntryIsRight f h i =
    (i < object_count (f h) → offset_at (f h).object_offset i ≡ (f (h + i + 1)).free_space)
    × (object_count (f h) ≤ i → (f (h + i + 1)).free_space ≡ max_free_space)

pub record IsFreeMap (f : PageFile) : Type 0 where
  pub bounded : (h : ℕ) → h % group_size ≡ 0 → object_count (f h) ≤ max_object_count
  pub right : (h i : ℕ) → h % group_size ≡ 0 → i < max_object_count → EntryIsRight f h i
  pub page : (n : ℕ) → n % group_size ≢ 0 → IsPage (f n)
  pub named : (n : ℕ) → n % group_size ≢ 0 → (f n).header.page_id ≡ n

find_entry-some :
    (needed i n : ℕ) (xs : List ℕ)
    → find_entry needed i xs ≡ some n
    → (i ≤ n) × (n < i + length xs) × (needed ≤ offset_at xs (n - i))
unfolding find_entry
find_entry-some needed i n [] e = absurd (cc)
find_entry-some needed i n (x ∷ xs) e = elim (Bool-cases (leb needed x)) [
  | inl enough ↦
      let here : i ≡ n = some_inj (rw enough at e) in
      let zeroth : n - i ≡ 0 = omega arith in
      rw zeroth (omega arith, omega arith, leb→le needed x enough)
  | inr less ↦
      let later = find_entry-some needed (suc i) n xs (rw less at e) in
      let next : n - i ≡ suc (n - suc i) = omega (arith, later.0) in
      rw next (omega (arith, later.0), omega (arith, later.1), later.2)
]

abbrev Offered : PageFile → ℕ → ℕ → ℕ → Type 0
Offered f h objsize n =
    (h < n)
    × (n ≤ h + object_count (f h) + 1)
    × (n < h + group_size)
    × (objsize + sizeof_int ≤ (f n).free_space)

offer_entry :
    (f : PageFile) (h objsize n i : ℕ)
    → IsFreeMap f
    → h % group_size ≡ 0
    → find_entry (objsize + sizeof_int) 0 (f h).object_offset ≡ some i
    → h + i + 1 ≡ n
    → Offered f h objsize n
offer_entry f h objsize n i v hz found e =
    let entry = find_entry-some (objsize + sizeof_int) 0 i (f h).object_offset found in
    let from_first : i - 0 ≡ i = omega arith in
    let enough : objsize + sizeof_int ≤ offset_at (f h).object_offset i =
      rw from_first at entry.2 in
    let few = v.bounded h hz in
    let same = (v.right h i hz (omega (arith, entry.1, few))).0 (omega (arith, entry.1)) in
    (
      omega arith,
      omega (arith, entry.1),
      omega (arith, entry.1, few),
      rw (← e) (omega (arith, enough, same)),
    )

offer_fresh :
    (f : PageFile) (h objsize n : ℕ)
    → IsFreeMap f
    → h % group_size ≡ 0
    → objsize + sizeof_int ≤ max_free_space
    → (if ltb (object_count (f h)) max_object_count
        then some (h + object_count (f h) + 1)
        else none)
      ≡ some n
    → Offered f h objsize n
offer_fresh f h objsize n v hz fits e =
    elim (Bool-cases (ltb (object_count (f h)) max_object_count)) [
      | inl room ↦
          let at : h + object_count (f h) + 1 ≡ n = some_inj (rw room at e) in
          let few = ltb→lt (object_count (f h)) max_object_count room in
          let empty = (v.right h (object_count (f h)) hz few).1 (omega arith) in
          (omega arith, omega arith, omega (arith, few), rw (← at) (omega (arith, empty)))
      | inr taken ↦ absurd (cc (rw taken at e))
    ]

offered :
    (f : PageFile) (h objsize n : ℕ)
    → h % group_size ≡ 0
    → Offered f h objsize n
    → (n % group_size ≢ 0)
      × (n % group_size ≤ object_count (f (n - n % group_size)) + 1)
      × (objsize + sizeof_int ≤ (f n).free_space)
offered f h objsize n hz o =
    let header : n - n % group_size ≡ h = omega (arith, o.0, o.2) in
    (omega (arith, o.0, o.2), rw header (omega (arith, o.0, o.1, o.2)), o.3)

-- The page offered is one of the header's, at most one behind those with an entry, and has room.
offer-some :
    (f : PageFile) (h objsize n : ℕ)
    → IsFreeMap f
    → h % group_size ≡ 0
    → objsize + sizeof_int ≤ max_free_space
    → offer (f h) h objsize ≡ some n
    → (h < n)
      × (n ≤ h + object_count (f h) + 1)
      × (n < h + group_size)
      × (objsize + sizeof_int ≤ (f n).free_space)
unfolding offer
offer-some f h objsize n v hz fits e =
    elim (Option-cases (find_entry (objsize + sizeof_int) 0 (f h).object_offset)) [
      | inl none_found ↦ offer_fresh f h objsize n v hz fits (rw (none_found, offer) at e)
      | inr (i, found) ↦ offer_entry f h objsize n i v hz found (some_inj (rw (found, offer) at e))
    ]

-- The loop ends at such an offer, of a header page that it reached.
pub get_free_page-some :
    (fuel : ℕ) (f : PageFile) (objsize pii n : ℕ)
    → IsFreeMap f
    → pii % group_size ≡ 0
    → objsize + sizeof_int ≤ max_free_space
    → get_free_page fuel f objsize pii ≡ some n
    → (n % group_size ≢ 0)
      × (n % group_size ≤ object_count (f (n - n % group_size)) + 1)
      × (objsize + sizeof_int ≤ (f n).free_space)
unfolding get_free_page
get_free_page-some zero f objsize pii n v hz fits e = absurd (cc)
get_free_page-some (suc fuel) f objsize pii n v hz fits e =
    elim (Option-cases (offer (f pii) pii objsize)) [
      | inl missing ↦
          get_free_page-some fuel f objsize (pii + group_size) n v (omega arith) fits
            (rw (missing, get_free_page) at e)
      | inr (m, found) ↦
          offered f pii objsize n hz
            (offer-some f pii objsize n v hz fits (found ∙ rw (found, get_free_page) at e))
    ]

offer_room :
    (f : PageFile) (h objsize : ℕ)
    → object_count (f h) < max_object_count
    → (n : ℕ) × (offer (f h) h objsize ≡ some n)
unfolding offer
offer_room f h objsize room =
    elim (Option-cases (find_entry (objsize + sizeof_int) 0 (f h).object_offset)) [
      | inl missing ↦ (
        h + object_count (f h) + 1,
        rw (missing, offer, lt→ltb (object_count (f h)) max_object_count room),
      )
      | inr (i, found) ↦ (h + i + 1, rw (found, offer))
    ]

-- A header that still has room for an entry ends the loop, and one is reached with enough fuel.
pub get_free_page_ends :
    (fuel j : ℕ) (f : PageFile) (objsize pii : ℕ)
    → j < fuel
    → object_count (f (pii + j * group_size)) < max_object_count
    → (n : ℕ) × (get_free_page fuel f objsize pii ≡ some n)
unfolding get_free_page
get_free_page_ends zero j f objsize pii lt room = absurd (omega arith)
get_free_page_ends (suc fuel) zero f objsize pii lt room =
    let (m, found) = offer_room f pii objsize (rw start at room) in (m, rw (found, get_free_page))
  where
    start : pii + 0 * group_size ≡ pii
    start = omega arith
get_free_page_ends (suc fuel) (suc j) f objsize pii lt room =
    elim (Option-cases (offer (f pii) pii objsize)) [
      | inl missing ↦
          rw (missing, get_free_page)
            (get_free_page_ends fuel j f objsize (pii + group_size) (omega arith) (rw next at room))
      | inr (m, found) ↦ (m, rw (found, get_free_page))
    ]
  where
    next : pii + suc j * group_size ≡ pii + group_size + j * group_size
    next = omega arith
