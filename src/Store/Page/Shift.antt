-- ===== src/Store/Page/Shift.antt =====
-- Objects that move towards the end of the page, with their entries (DBStoreManager::deleteObject).
use loxim_stats.Base.{
  ℕ, zero, suc, ◌+◌, ◌-◌, ◌≤◌, ◌<◌, ◌≡◌, refl, ap, ap₂, ◌∙◌, List, [], ◌∷◌, arith, length, drop,
  set,
}
use loxim_stats.Store.Page.Memory.{
  Bytes, read, write_object, length-read, read_agree, read_nil, read-write_object,
  write_object_below, write_object_above,
}
use loxim_stats.Store.Page.Contents.{contents, Descending, last_offset-le, contents_agree}
use loxim_stats.Store.Page.{last_offset, offset_at, move_up, add_from}

-- Where the object at `k` ends, if the first one ends at `prev`.
abbrev pub end_from : ℕ → ℕ → List ℕ → ℕ
end_from prev zero os = prev
end_from prev (suc k) [] = 0
end_from prev (suc k) (o ∷ os) = end_from o k os

pub end_from-ge :
    (prev k : ℕ) (os : List ℕ)
    → Descending prev os
    → k < length os
    → (offset_at os k ≤ end_from prev k os) × (end_from prev k os ≤ prev)
end_from-ge prev k [] d h = absurd (omega arith)
end_from-ge prev zero (o ∷ os) d h = (d.0, omega arith)
end_from-ge prev (suc k) (o ∷ os) d h =
    let r = end_from-ge o k os d.1 (omega arith) in (r.0, omega arith)

pub move_up_above :
    (m : Bytes) (d prev : ℕ) (os : List ℕ) (x : ℕ)
    → Descending prev os
    → prev + d ≤ x
    → move_up m d prev os x ≡ m x
unfolding move_up
move_up_above m d prev [] x desc h = refl
move_up_above m d prev (o ∷ os) x desc h =
    move_up_above (write_object m (o + d) (read m o (prev - o))) d o os x desc.1 (omega arith)
    ∙ write_object_above m (o + d) (read m o (prev - o)) x
        (omega (arith, length-read m o (prev - o)))

pub move_up_below :
    (m : Bytes) (d prev : ℕ) (os : List ℕ) (x : ℕ)
    → Descending prev os
    → x < last_offset prev os + d
    → move_up m d prev os x ≡ m x
unfolding move_up
move_up_below m d prev [] x desc h = refl
move_up_below m d prev (o ∷ os) x desc h =
    move_up_below (write_object m (o + d) (read m o (prev - o))) d o os x desc.1 h
    ∙ write_object_below m (o + d) (read m o (prev - o)) x
        (omega (arith, last_offset-le o os desc.1))

pub contents-move_up :
    (m : Bytes) (d prev : ℕ) (os : List ℕ)
    → Descending prev os
    → contents (move_up m d prev os) (prev + d) (add_from 0 d os) ≡ contents m prev os
unfolding contents move_up add_from
contents-move_up m d prev [] desc = refl
contents-move_up m d prev (o ∷ os) desc =
    ap₂ (λ x xs. x ∷ xs) first
      (contents-move_up m1 d o os desc.1
        ∙ contents_agree m1 m o os desc.1
            λ x lo hi. write_object_below m (o + d) (read m o (prev - o)) x (omega arith))
  where
    m1 : Bytes
    m1 = write_object m (o + d) (read m o (prev - o))

    first : read (move_up m1 d o os) (o + d) (prev + d - (o + d)) ≡ read m o (prev - o)
    first =
        read_agree (move_up m1 d o os) m1 (o + d) (o + d) (prev + d - (o + d))
          (λ k lt. move_up_above m1 d o os (o + d + k) desc.1 (omega arith))
        ∙ ap (read m1 (o + d)) (omega (arith, length-read m o (prev - o)))
        ∙ read-write_object m (o + d) (read m o (prev - o))

-- The object at `k` is empty and the others are what they were, if the bytes behind it moved.
pub contents-add_from :
    (m m' : Bytes) (prev k : ℕ) (os : List ℕ)
    → Descending prev os
    → k < length os
    → let d = end_from prev k os - offset_at os k in
      ((x : ℕ) → end_from prev k os ≤ x → m' x ≡ m x)
      → contents m' (offset_at os k + d) (add_from 0 d (drop (suc k) os))
        ≡ contents m (offset_at os k) (drop (suc k) os)
      → contents m' prev (add_from k d os) ≡ set (contents m prev os) k []
unfolding contents add_from
contents-add_from m m' prev k [] desc h above moved = absurd (omega arith)
contents-add_from m m' prev zero (o ∷ os) desc h above moved =
    ap₂ (λ x xs. x ∷ xs) (read_nil m' _ _ (omega arith)) moved
contents-add_from m m' prev (suc k) (o ∷ os) desc h above moved =
    ap₂ (λ x xs. x ∷ xs)
      (read_agree m' m o o (prev - o)
        λ j lt. above (o + j) (omega (arith, (end_from-ge o k os desc.1 (omega arith)).1)))
      (contents-add_from m m' o k os desc.1 (omega arith) above moved)

Descending-add_zero :
    (s prev : ℕ) (os : List ℕ) → Descending prev os → Descending (prev + s) (add_from 0 s os)
unfolding add_from
Descending-add_zero s prev [] d = tt
Descending-add_zero s prev (o ∷ os) d = (omega arith, Descending-add_zero s o os d.1)

last_offset-add_zero :
    (s prev : ℕ) (os : List ℕ) → last_offset (prev + s) (add_from 0 s os) ≡ last_offset prev os + s
unfolding add_from
last_offset-add_zero s prev [] = refl
last_offset-add_zero s prev (o ∷ os) = last_offset-add_zero s o os

pub last_offset-add_from :
    (k s prev : ℕ) (os : List ℕ)
    → k < length os
    → last_offset prev (add_from k s os) ≡ last_offset prev os + s
unfolding add_from
last_offset-add_from k s prev [] h = absurd (omega arith)
last_offset-add_from zero s prev (o ∷ os) h = last_offset-add_zero s o os
last_offset-add_from (suc k) s prev (o ∷ os) h = last_offset-add_from k s o os (omega arith)

pub length-add_from : (k s : ℕ) (os : List ℕ) → length (add_from k s os) ≡ length os
unfolding add_from
length-add_from zero s [] = refl
length-add_from (suc k) s [] = refl
length-add_from zero s (o ∷ os) = ap suc (length-add_from zero s os)
length-add_from (suc k) s (o ∷ os) = ap suc (length-add_from k s os)

pub Descending-add_from :
    (prev k : ℕ) (os : List ℕ)
    → Descending prev os
    → k < length os
    → Descending prev (add_from k (end_from prev k os - offset_at os k) os)
unfolding add_from
Descending-add_from prev k [] d h = absurd (omega arith)
Descending-add_from prev zero (o ∷ os) d h = (omega arith, Descending-add_zero (prev - o) o os d.1)
Descending-add_from prev (suc k) (o ∷ os) d h = (d.0, Descending-add_from o k os d.1 (omega arith))
