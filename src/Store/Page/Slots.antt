-- ===== src/Store/Page/Slots.antt =====
-- The search for an empty object, and what a page holds once one is filled (PageManager.cpp).
use loxim_stats.Base.{
  ℕ, zero, suc, ◌+◌, ◌-◌, ◌≤◌, ◌<◌, ◌≡◌, refl, ap, ap₂, sym, ◌∙◌, inl, inr, List, [], ◌∷◌, arith,
  length, ltb, Bool-cases, ltb→lt, ltb→ge, gt→leb,
}
use loxim_stats.Store.Page.Memory.{Bytes, read, read_agree, read_cons, read_nil}
use loxim_stats.Store.Page.Contents.{contents, Descending, slot, put, last_offset-le, offset_at-le}
use loxim_stats.Store.Page.{
  Scan, hole, full, corrupted, store_pagesize, last_offset, scan_offsets, find_empty, sub_from,
  offset_at,
}

slot-read_cons :
    (m : Bytes) (a n : ℕ) (rest : List (List ℕ))
    → 0 < n
    → slot (read m a n ∷ rest) ≡ suc (slot rest)
slot-read_cons m a n rest h = rw (read_cons m a n h)

slot-read_nil : (m : Bytes) (a n : ℕ) (rest : List (List ℕ)) → n ≡ 0 → slot (read m a n ∷ rest) ≡ 0
slot-read_nil m a n rest h = rw (read_nil m a n h)

-- The search stops at the first empty object; in an ordered table it never meets a fault.
abbrev pub Finds : ℕ → List (List ℕ) → Scan → Type 0
Finds i objs corrupted = ⊥
Finds i objs full = slot objs ≡ length objs
Finds i objs (hole r) = (r ≡ i + slot objs) × (slot objs < length objs)

Finds-cons :
    (m : Bytes) (a n i : ℕ) (objs : List (List ℕ)) (found : Scan)
    → 0 < n
    → Finds (suc i) objs found
    → Finds i (read m a n ∷ objs) found
Finds-cons m a n i objs (hole r) h f =
    rw (slot-read_cons m a n objs h) (omega (arith, f.0), omega (arith, f.1))
Finds-cons m a n i objs full h f = slot-read_cons m a n objs h ∙ ap suc f
Finds-cons m a n i objs corrupted h f = f

pub scan_offsets-Finds :
    (m : Bytes) (i prev : ℕ) (os : List ℕ)
    → Descending prev os
    → Finds i (contents m prev os) (scan_offsets i prev os)
unfolding scan_offsets contents
scan_offsets-Finds m i prev [] d = refl
scan_offsets-Finds m i prev (o ∷ os) d = elim (Bool-cases (ltb o prev)) [
  | inl lt ↦ rw (gt→leb prev o (ltb→lt o prev lt)) (
      Finds-cons m o (prev - o) i (contents m o os) (scan_offsets (suc i) o os)
        (omega (arith, ltb→lt o prev lt)) (scan_offsets-Finds m (suc i) o os d.1))
  | inr ge ↦ ground (arith, slot-read_nil m o (prev - o) (contents m o os))
]

pub find_empty-scan :
    (os : List ℕ) → Descending store_pagesize os → find_empty os ≡ scan_offsets 0 store_pagesize os
unfolding find_empty scan_offsets
find_empty-scan [] d = refl
find_empty-scan (o ∷ os) d = ground arith

-- Objects whose table entries and bytes all moved by `s`.
contents-sub_from :
    (m m' : Bytes) (s prev : ℕ) (os : List ℕ)
    → Descending prev os
    → s ≤ last_offset prev os
    → ((x : ℕ) → last_offset prev os ≤ x → x < prev → m' (x - s) ≡ m x)
    → contents m' (prev - s) (sub_from 0 s os) ≡ contents m prev os
unfolding contents sub_from
contents-sub_from m m' s prev [] d h moved = refl
contents-sub_from m m' s prev (o ∷ os) d h moved =
    ap₂ (λ x xs. x ∷ xs) first
      (contents-sub_from m m' s o os d.1 h (λ x lo hi. moved x lo (omega arith)))
  where
    room : s ≤ o
    room = omega (arith, last_offset-le o os d.1)

    size : prev - s - (o - s) ≡ prev - o
    size = omega (arith, room)

    first : read m' (o - s) (prev - s - (o - s)) ≡ read m o (prev - o)
    first = rw size (
        read_agree m' m (o - s) o (prev - o) λ k lt.
          ap m' (omega (arith, room))
          ∙ moved (o + k) (omega (arith, last_offset-le o os d.1)) (omega arith))

put-read_cons :
    (obj : List ℕ) (m : Bytes) (a n : ℕ) (rest : List (List ℕ))
    → 0 < n
    → put obj (read m a n ∷ rest) ≡ read m a n ∷ put obj rest
put-read_cons obj m a n rest h = rw (read_cons m a n h)

put-read_nil :
    (obj : List ℕ) (m : Bytes) (a n : ℕ) (rest : List (List ℕ))
    → n ≡ 0
    → put obj (read m a n ∷ rest) ≡ obj ∷ rest
put-read_nil obj m a n rest h = rw (read_nil m a n h)

pub hole-contents :
    (m m' : Bytes) (obj : List ℕ) (prev r : ℕ) (os : List ℕ)
    → Descending prev os
    → slot (contents m prev os) ≡ r
    → r < length os
    → length obj ≤ last_offset prev os
    → ((x : ℕ) → offset_at os r ≤ x → m x ≡ m' x)
    → ((x : ℕ) → last_offset prev os ≤ x → x < offset_at os r → m' (x - length obj) ≡ m x)
    → read m' (offset_at os r - length obj) (length obj) ≡ obj
    → contents m' prev (sub_from r (length obj) os) ≡ put obj (contents m prev os)
unfolding contents sub_from
hole-contents m m' obj prev r [] d e lt fits above moved new = absurd (omega arith)
hole-contents m m' obj prev zero (o ∷ os) d e lt fits above moved new =
    rw (put-read_nil obj m o (prev - o) (contents m o os) empty, size)
      (ap₂ (λ x xs. x ∷ xs) new (contents-sub_from m m' (length obj) o os d.1 fits moved))
  where
    empty : prev - o ≡ 0
    empty = elim (Bool-cases (ltb 0 (prev - o))) [
      | inl lt ↦ cc (slot-read_cons m o (prev - o) (contents m o os) (ltb→lt _ _ lt))
      | inr ge ↦ omega (arith, ltb→ge 0 (prev - o) ge)
    ]

    size : prev - (o - length obj) ≡ length obj
    size = omega (arith, empty, last_offset-le o os d.1)
hole-contents m m' obj prev (suc r) (o ∷ os) d e lt fits above moved new =
    rw (put-read_cons obj m o (prev - o) (contents m o os) filled) (
      ap₂ (λ x xs. x ∷ xs) same
        (hole-contents m m' obj o r os d.1 rest (omega arith) fits above moved new))
  where
    filled : 0 < prev - o
    filled = elim (Bool-cases (ltb 0 (prev - o))) [
      | inl lt ↦ ltb→lt _ _ lt
      | inr ge ↦
          cc
            (slot-read_nil m o (prev - o) (contents m o os) (omega (arith, ltb→ge 0 (prev - o) ge)))
    ]

    rest : slot (contents m o os) ≡ r
    rest = omega (arith, e, slot-read_cons m o (prev - o) (contents m o os) filled)

    same : read m' o (prev - o) ≡ read m o (prev - o)
    same =
        read_agree m' m o o (prev - o)
          λ k lt'. sym (above (o + k) (omega (arith, offset_at-le o r os d.1)))
