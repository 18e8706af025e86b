-- ===== src/Store/Page/Contents.antt =====
-- What a page holds: the list of its objects, its well-formedness, and the abstract operations on
-- such a list.
use loxim_stats.Base.{
  ℕ, zero, suc, ◌<◌, ◌+◌, ◌-◌, ◌*◌, ◌≤◌, ◌≡◌, refl, ap, ap₂, List, [], ◌∷◌, ◌++◌, arith, length,
}
use loxim_stats.Store.Page.Memory.{Bytes, read, read_agree}
use loxim_stats.Store.Page.{
  PageData, store_pagesize, sizeof_page_data, sizeof_int, object_count, last_offset, offset_at,
}

-- The objects behind `prev`: each ends where the one before it starts.
unfoldable pub contents : Bytes → ℕ → List ℕ → List (List ℕ)
contents m prev [] = []
contents m prev (o ∷ os) = read m o (prev - o) ∷ contents m o os

abbrev pub objects : PageData → List (List ℕ)
objects p = contents p.bytes store_pagesize p.object_offset

-- The entries do not increase from `prev` on.
abbrev pub Descending : ℕ → List ℕ → Type 0
Descending prev [] = Unit {0}
Descending prev (o ∷ os) = (o ≤ prev) × Descending o os

-- The table is ordered, and `free_space` is what lies between the table and the last object.
pub record IsPage (p : PageData) : Type 0 where
  pub ordered : Descending store_pagesize p.object_offset
  pub accounted :
      p.free_space + (sizeof_page_data + sizeof_int * object_count p)
      ≡ last_offset store_pagesize p.object_offset

-- The index of the first empty object, or the number of objects.
abbrev pub slot : List (List ℕ) → ℕ
slot [] = 0
slot ([] ∷ rest) = 0
slot ((b ∷ bs) ∷ rest) = suc (slot rest)

-- An object takes the first empty place, or a new one at the end.
abbrev pub put : List ℕ → List (List ℕ) → List (List ℕ)
put obj [] = obj ∷ []
put obj ([] ∷ rest) = obj ∷ rest
put obj ((b ∷ bs) ∷ rest) = (b ∷ bs) ∷ put obj rest

-- The list without the empty objects at its end.
abbrev pub cons_trim : List ℕ → List (List ℕ) → List (List ℕ)
cons_trim [] [] = []
cons_trim (b ∷ bs) [] = (b ∷ bs) ∷ []
cons_trim obj (x ∷ xs) = obj ∷ x ∷ xs

abbrev pub trim_objects : List (List ℕ) → List (List ℕ)
trim_objects [] = []
trim_objects (obj ∷ objs) = cons_trim obj (trim_objects objs)

pub length-contents : (m : Bytes) (prev : ℕ) (os : List ℕ) → length (contents m prev os) ≡ length os
unfolding contents
length-contents m prev [] = refl
length-contents m prev (o ∷ os) = ap suc (length-contents m o os)

pub last_offset-le : (prev : ℕ) (os : List ℕ) → Descending prev os → last_offset prev os ≤ prev
last_offset-le prev [] d = omega arith
last_offset-le prev (o ∷ os) d = omega (arith, last_offset-le o os d.1)

pub last_offset-append : (prev n : ℕ) (os : List ℕ) → last_offset prev (os ++ n ∷ []) ≡ n
last_offset-append prev n [] = refl
last_offset-append prev n (o ∷ os) = last_offset-append o n os

pub Descending-append :
    (prev n : ℕ) (os : List ℕ)
    → Descending prev os
    → n ≤ last_offset prev os
    → Descending prev (os ++ n ∷ [])
Descending-append prev n [] d h = (h, tt)
Descending-append prev n (o ∷ os) d h = (d.0, Descending-append o n os d.1 h)

pub contents_agree :
    (m m' : Bytes) (prev : ℕ) (os : List ℕ)
    → Descending prev os
    → ((x : ℕ) → last_offset prev os ≤ x → x < prev → m x ≡ m' x)
    → contents m prev os ≡ contents m' prev os
unfolding contents
contents_agree m m' prev [] d h = refl
contents_agree m m' prev (o ∷ os) d h =
    ap₂ (λ x xs. x ∷ xs)
      (read_agree m m' o o (prev - o)
        λ k lt. h (o + k) (omega (arith, last_offset-le o os d.1)) (omega arith))
      (contents_agree m m' o os d.1 λ x lo hi. h x lo (omega arith))

pub contents-append :
    (m : Bytes) (prev n : ℕ) (os : List ℕ)
    → contents m prev (os ++ n ∷ []) ≡ contents m prev os ++ read m n (last_offset prev os - n) ∷ []
unfolding contents
contents-append m prev n [] = refl
contents-append m prev n (o ∷ os) = ap (λ xs. read m o (prev - o) ∷ xs) (contents-append m o n os)

pub offset_at-le :
    (prev r : ℕ) (os : List ℕ) → Descending prev os → r < length os → offset_at os r ≤ prev
offset_at-le prev r [] d h = absurd (omega arith)
offset_at-le prev zero (o ∷ os) d h = d.0
offset_at-le prev (suc r) (o ∷ os) d h = omega (arith, offset_at-le o r os d.1)

pub last_offset-le-offset_at :
    (prev r : ℕ) (os : List ℕ)
    → Descending prev os
    → r < length os
    → last_offset prev os ≤ offset_at os r
last_offset-le-offset_at prev r [] d h = absurd (omega arith)
last_offset-le-offset_at prev zero (o ∷ os) d h = last_offset-le o os d.1
last_offset-le-offset_at prev (suc r) (o ∷ os) d h =
    last_offset-le-offset_at o r os d.1 (omega arith)
